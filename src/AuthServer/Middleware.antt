-- ===== src/AuthServer/Middleware.antt =====
-- `handleErrors` of auth-server/server/handlers.go, after the handlers have run. The log is left out.
use plissken.Base.{ℕ, Bool, true, false, Option, none, some, [], ◌∷◌, ◌++◌, Text, codes}

-- `written` is `c.Writer.Written()`, and `meta` the text of the last public error, if that has one.
-- The status and the body are those that have been written.
unfoldable pub handle_errors : (written : Bool) (meta : Option Text) → ℕ × Text → ℕ × Text
handle_errors written none r = r
handle_errors true (some meta) (n, body) = (n, body ++ (codes "Error: " ++ (meta ++ (10 ∷ []))))
handle_errors false (some meta) r = (500, meta)

-- `c.AbortWithError` writes its status at once.
abbrev pub aborted : ℕ → Text → ℕ × Text
aborted n meta = handle_errors true (some meta) (n, [])
