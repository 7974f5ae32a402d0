-- ===== src/Js/Within.antt =====
-- Lists of events whose events all stand in another list.
use mathlib.Core.List.{Memᴰ}
use plissken.Base.{refl, List, [], ◌∷◌, ◌++◌}
use plissken.Js.Run.{Event}

-- Every event of the first list is in the second.
abbrev pub Within : List Event → List Event → Type 0
Within [] history = Unit
Within (e ∷ es) history = Memᴰ e history × Within es history

Memᴰ-append : {e : Event} (xs ys : List Event) → Memᴰ e xs → Memᴰ e (xs ++ ys)
Memᴰ-append [] ys m = elim m [ ]
Memᴰ-append (x ∷ xs) ys (Memᴰ.head p) = Memᴰ.head p
Memᴰ-append (x ∷ xs) ys (Memᴰ.tail m) = Memᴰ.tail (Memᴰ-append xs ys m)

Memᴰ_last : (xs : List Event) (e : Event) → Memᴰ e (xs ++ e ∷ [])
Memᴰ_last [] e = Memᴰ.head refl
Memᴰ_last (x ∷ xs) e = Memᴰ.tail (Memᴰ_last xs e)

pub Within-append : (es xs ys : List Event) → Within es xs → Within es (xs ++ ys)
Within-append [] xs ys h = tt
Within-append (e ∷ es) xs ys (m, h) = (Memᴰ-append xs ys m, Within-append es xs ys h)

-- One more event, of both.
pub Within-grow :
    (es history : List Event) (e : Event)
    → Within es history
    → Within (es ++ e ∷ []) (history ++ e ∷ [])
Within-grow [] history e h = (Memᴰ_last history e, tt)
Within-grow (x ∷ es) history e (m, h) = (Memᴰ-append history _ m, Within-grow es history e h)
