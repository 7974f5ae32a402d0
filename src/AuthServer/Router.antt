-- ===== src/AuthServer/Router.antt =====
-- The routes of auth-server/server/server.go.
use plissken.Base.{true, Option, Text, codes, text_eq, if◌then◌else◌}
use plissken.Opaque.Primitives.{Primitives}
use plissken.Opaque.Server.{World, Server}
use plissken.Common.Codec.{GoJson}
use plissken.Common.Messages.{unmarshal_request, unmarshal_registration, unmarshal_finalize}
use plissken.AuthServer.Redis.{Redis, Encodings}
use plissken.AuthServer.Handlers.{
  Incoming, Reply, status, reply, handle_start_password_registration,
  handle_finalize_password_registration, handle_start_password_authentication,
  handle_finalize_password_authentication,
}

-- A request whose body has arrived.
abbrev pub arrived : {A : Type 0} → Option A → Incoming A
arrived bound = record { dumps = true; bound = bound }

module _ {R D : Type 0} (p : Primitives R) (r : Redis D) (c : Encodings) (g : GoJson)
    (s : Server) where
  -- `router.POST(path, …)`, at a body that is JSON or not. Other paths are not found.
  unfoldable pub serve_post : (path body : Text) → World R D → Reply p.Element × World R D
  serve_post path body =
      if text_eq path (codes "/start_password_registration")
      then handle_start_password_registration p r c s (arrived (unmarshal_request p c.hex g body))
      else if text_eq path (codes "/finalize_password_registration")
      then handle_finalize_password_registration p r c s
          (arrived (unmarshal_registration p c.hex g body))
      else if text_eq path (codes "/start_password_authentication")
      then handle_start_password_authentication p r c s (arrived (unmarshal_request p c.hex g body))
      else if text_eq path (codes "/finalize_password_authentication")
      then handle_finalize_password_authentication p r c s (unmarshal_finalize p c.hex g body)
      else reply (status 404)
