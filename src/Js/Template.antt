-- ===== src/Js/Template.antt =====
-- Values in template literals and in `Date.setTime`: both throw a `TypeError` for an object that has
-- no text, and so for `{"toString": 1}`.
use plissken.Base.{Text, none, some, ◌++◌}
use plissken.Json.{Json}
use plissken.Json.Print.{to_string}
use plissken.Js.Process.{Engine, Result, ok, throw, Thrown, type_error}

module _ (js : Engine) where
  -- `` `${before}${v}` ``, where `before` is a text.
  unfoldable pub template : Text → Json → Result Text
  template before v = elim (to_string v) [
    | some t ↦ ok (before ++ t)
    | none ↦ throw (type_error js.no_primitive)
  ]

  -- `d.setTime(v)` of a new `Date`, and then `d.toUTCString()`. `setTime` makes a number of `v`, and
  -- for that a text first.
  unfoldable pub time_text : Json → Result Text
  time_text v = elim (to_string v) [
    | some t ↦ ok (js.utc_string v)
    | none ↦ throw (type_error js.no_primitive)
  ]

-- What `throw new Error(t)` throws, and the like, where making the text `t` may throw before.
abbrev pub thrown_by : (Text → Thrown) → Result Text → Thrown
thrown_by f (ok t) = f t
thrown_by f (throw e) = e
