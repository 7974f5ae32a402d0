-- ===== src/Tests/LoginForm.antt =====
-- A login on the page, and the theorems of the login form.
use plissken.Base.{◌≤◌, ◌≡◌, refl, some, codes, text_eq, List, [], ◌∷◌, ◌++◌}
use plissken.Json.{num, obj, field, end, field_of}
use plissken.Js.Template.{template, time_text}
use plissken.Json.Print.{to_string, object_string, truthy, decimal}
use plissken.Js.Process.{
  Result, ok, throw, type_error, axios_error, thrown_string, is_axios_error, response_of,
  HttpResponse, put, get, date_now,
}
use plissken.Js.Run.{Event, called, sent, run, requests}
use plissken.Sdk.Classes.{
  require, new_request_result, new_start_data, request_json, start_data_json, finalize_json,
}
use plissken.Sdk.Requests.{start_password_auth, finalize_password_auth}
use plissken.Sdk.Protocol.{run_password_auth, run_password_reg}
use plissken.LoginForm.{
  Config, FormState, default_app_token, initial_state, show_info, show_error, failure,
  response_detail, no_session_token,
}
use plissken.LoginForm.Handlers.{
  logged_in, report, check_status, try_login, try_put_resource, handle_login, handle_register,
  handle_put_resource, handle_get_resource,
}
use plissken.LoginForm.View.{login, put_resource, render}
use plissken.LoginForm.Page.{
  prints, asks, awaits, Page, handler, click, typed_username, clicked, moved, finished, Reach,
  loaded, next,
}
use plissken.LoginForm.Invariant.{IsSound}
use plissken.LoginForm.Reachable.{Reach-IsSound}
use plissken.LoginForm.Outcomes.{
  change_for, checked, timed, handle-result, handle_put_resource-result, handle_get_resource-result,
}
use plissken.LoginForm.Shown.{count_h3, readable, count_h3-Reach, readable-render}
use plissken.Tests.Setting.{engine, friendly, hostile, good_response}

abbrev config : Config
config = record {
  hex_encoded_plissken_server_pub_key = codes "00";
  plissken_auth_endpoint = codes "http://a";
  resource_server_endpoint = codes "http://r";
}

handlers : Unit {0}
unfolding run requests run_password_auth start_password_auth finalize_password_auth
    new_request_result new_start_data require field_of text_eq request_json start_data_json
    finalize_json to_string truthy decimal thrown_string is_axios_error response_of initial_state
    show_info show_error failure response_detail logged_in report check_status try_login
    try_put_resource handle_login handle_put_resource handler click change_for checked timed
    template time_text object_string
handlers = tt

abbrev ann : FormState
ann = record {
  username = codes "ann";
  password = [];
  session_token = no_session_token;
  info_msg = [];
  error_msg = [];
}

-- The message of a login that the server refused speaks of a registration.
login_refused :
    (run hostile (handle_login engine config ann) 0).result
    ≡ ok (
        show_error (
          codes "Failed to register: Error: Request failed with status code 400: JSON body is bad"))
unfolding handlers
login_refused = refl

-- A body without a text, as a server may answer it.
abbrev no_text : Result HttpResponse
no_text = throw (
    axios_error (codes "Request failed with status code 400")
      (some (record { status = 400; body = obj (field (codes "toString") (num (codes "1")) end) })))

-- The handler rejects: the message is not shown.
put_rejected :
    (run
      (record friendly { http = λ q n. (no_text, n) })
      (handle_put_resource engine config ann)
      0).result
    ≡ throw (type_error engine.no_primitive)
unfolding handlers
put_rejected = refl

abbrev put_events : List Event
put_events =
    called date_now (ok (codes "1650000000000"))
    ∷ sent
        (put (codes "http://r/put-resource") (
          (codes "session_token", no_session_token)
          ∷ (codes "username", [])
          ∷ (codes "ts", codes "1650000000000")
          ∷ []))
        (ok good_response)
    ∷ []

-- The page after the put button has been clicked and answered.
abbrev after_put : Page
after_put = record {
  form = record {
    username = [];
    password = [];
    session_token = no_session_token;
    info_msg = codes "Updated last time I cut my hair";
    error_msg = [];
  };
  running = [];
  history = put_events;
}

reach_put : Reach engine config after_put
unfolding handlers
reach_put =
    next
      (next
        (next (next loaded (clicked _ put_resource))
          (moved _ [] [] _ _ _ refl (asks date_now _ (ok (codes "1650000000000")))))
        (moved _ [] [] _ _ _ refl (awaits _ _ (ok good_response))))
      (finished _ [] [] _ (show_info (codes "Updated last time I cut my hair")) refl refl)

-- The page after a login of the user `ann` that went well.
abbrev login_events : List Event
login_events = (run friendly (handle_login engine config ann) 0).events

abbrev after_login : Page
after_login = record {
  form = record ann { session_token = codes "5e55"; info_msg = codes "Successfully logged in" };
  running = [];
  history = login_events;
}

reach_login : Reach engine config after_login
unfolding handlers
reach_login =
    next
      (next
        (next
          (next
            (next
              (next
                (next (next (next loaded (typed_username _ (codes "ann"))) (clicked _ login))
                  (moved _ [] [] _ _ _ refl (prints _ _)))
                (moved _ [] [] _ _ _ refl (asks _ _ (ok (codes "made")))))
              (moved _ [] [] _ _ _ refl (awaits _ _ (ok good_response))))
            (moved _ [] [] _ _ _ refl (asks _ _ (ok (codes "5e55")))))
          (moved _ [] [] _ _ _ refl (awaits _ _ (ok good_response))))
        (moved _ [] [] _ _ _ refl (prints _ _)))
      (finished _ [] [] _ (logged_in (codes "5e55")) refl refl)

Reach-IsSound_example : IsSound engine config after_login
Reach-IsSound_example = Reach-IsSound engine config reach_login

count_h3-Reach_example : count_h3 (render after_login.form) ≤ 1
count_h3-Reach_example = count_h3-Reach engine config after_login reach_login

readable-render_example :
    readable (render (record ann { password = codes "pw" })) ≡ readable (render ann)
readable-render_example = readable-render ann (codes "pw")

handle-result_example :
    ((run hostile (handle_login engine config ann) 0).result
      ≡ change_for engine logged_in
          (codes "Failed to register: ")
          (codes "Failed to login: ")
          (run hostile
            (run_password_auth engine default_app_token
              (codes "ann")
              []
              (codes "00")
              (codes "http://a"))
            0).result)
    × ((run hostile (handle_register engine config ann) 0).result
        ≡ change_for engine
            (λ _. show_info (codes "Successfully registered"))
            (codes "Failed to register: ")
            (codes "Failed to register: ")
            (run hostile
              (run_password_reg engine default_app_token
                (codes "ann")
                []
                (codes "00")
                (codes "http://a"))
              0).result)
handle-result_example = handle-result engine config hostile ann 0

handle_put_resource-result_example :
    ((run friendly (handle_put_resource engine config ann) 0).result
      ≡ change_for engine
          (λ _. show_info (codes "Updated last time I cut my hair"))
          (codes "Failed to put resource: ")
          (codes "Failed: ")
          (checked (ok good_response)))
    × (requests (run friendly (handle_put_resource engine config ann) 0).events
        ≡ put (codes "http://r/put-resource") (
            (codes "session_token", no_session_token)
            ∷ (codes "username", codes "ann")
            ∷ (codes "ts", codes "1650000000000")
            ∷ [])
          ∷ [])
handle_put_resource-result_example =
    handle_put_resource-result engine config friendly ann 0 (codes "1650000000000") 1 refl

handle_get_resource-result_example :
    ((run hostile (handle_get_resource engine config ann) 0).result
      ≡ change_for engine
          (λ t. show_info (codes "Successfully got last time I cut my hair: " ++ t))
          (codes "Failed to get resource: ")
          (codes "Failed: ")
          (timed engine (
            checked
              (hostile.http
                (get (codes "http://r/get-resource") (
                  (codes "session_token", no_session_token) ∷ (codes "username", codes "ann") ∷ []))
                0).0)))
    × (requests (run hostile (handle_get_resource engine config ann) 0).events
        ≡ get
            (codes "http://r/get-resource")
            ((codes "session_token", no_session_token) ∷ (codes "username", codes "ann") ∷ [])
          ∷ [])
handle_get_resource-result_example = handle_get_resource-result engine config hostile ann 0
