-- ===== src/Refresh/Runs.antt =====
-- The refresher on concrete attempts.
use loxwebsocketclient_rs.Prelude.{false, ◌≡◌, refl, inr, some, [], ◌∷◌}
use loxwebsocketclient_rs.Error.{timeout, ok, err}
use loxwebsocketclient_rs.Str.{codes, bytes_eq}
use loxwebsocketclient_rs.Metrics
use loxwebsocketclient_rs.Samples.{willing_json, plain_digests}
use loxwebsocketclient_rs.Token.{is_empty}
use loxwebsocketclient_rs.Shared.{SharedState, clear_token, set_token, persist}
use loxwebsocketclient_rs.Flow.{
  build_token_hash, apply_valid_until, parse_getkey_value, parse_json, require_ll_ok,
  ll_status_code, ll_value, read_valid_until,
}
use loxwebsocketclient_rs.Hash.{hash_token, hmac_hex}
use loxwebsocketclient_rs.Store.{Disk}
use loxwebsocketclient_rs.Store.Refine.{file_store}
use loxwebsocketclient_rs.Store.Runs.{home, jwt, working, no_file}
use loxwebsocketclient_rs.Writer.{drop_session}
use loxwebsocketclient_rs.Refresh.{
  on_refresh_answer, sleeps, attempts, Try, on_hash, next_refresh_delay, refresh_once,
  run_refresher,
}
use loxwebsocketclient_rs.Refresh.Attempts.{
  Untouched, met, IsPaced, run_refresher-IsPaced, refresh_once-replaced, run_refresher-gives_up,
}

abbrev shared : SharedState Disk
shared = record { state = Metrics.connected; token = jwt; binding = some home; saved = no_file }

-- Nobody answers.
abbrev silent : Try Disk
silent = record {
  now = 1700000000;
  answer = λ cmd. err timeout;
  during_key = λ s. s;
  during_refresh = λ s. s;
  during_adopt = λ s. s;
}

-- Another token is there when the refresh is answered.
abbrev overtaken : Try Disk
overtaken = record {
  now = 1700000000;
  answer = λ cmd. ok [];
  during_key = λ s. s;
  during_refresh = λ s. record s { token = record jwt { token = codes "new" } };
  during_adopt = λ s. s;
}

run_refresher-IsPaced_example : IsPaced (
    (run_refresher willing_json plain_digests
      (file_store working)
      (codes "admin")
      0
      (silent ∷ overtaken ∷ [])
      shared).log)
run_refresher-IsPaced_example =
    run_refresher-IsPaced willing_json plain_digests (file_store working) (codes "admin") 0
      (silent ∷ overtaken ∷ []) shared

refresh_once-replaced_example :
    Untouched willing_json plain_digests
      (file_store working)
      (codes "admin")
      (met willing_json plain_digests (file_store working) (codes "admin") overtaken shared)
      (refresh_once willing_json plain_digests
        (file_store working)
        (codes "admin")
        overtaken
        shared)
unfolding bytes_eq
refresh_once-replaced_example =
    refresh_once-replaced willing_json plain_digests (file_store working) (codes "admin") overtaken
      shared (inr refl)

run_refresher-gives_up_example :
    run_refresher willing_json plain_digests
      (file_store working)
      (codes "admin")
      0
      (silent ∷ silent ∷ silent ∷ overtaken ∷ [])
      shared
    ≡ record {
      log =
          sleeps (next_refresh_delay 1700000000 shared)
          ∷ attempts
          ∷ sleeps 15
          ∷ attempts
          ∷ sleeps 15
          ∷ attempts
          ∷ [];
      sent = drop_session ∷ [];
      shared = shared;
    }
unfolding refresh_once is_empty on_hash
run_refresher-gives_up_example =
    run_refresher-gives_up willing_json plain_digests (file_store working) (codes "admin") silent
      silent silent (overtaken ∷ []) shared shared shared shared (timeout, refl) (timeout, refl)
      (timeout, refl)

-- The writer clears the token after the second look at it, and the refreshed token is set all the
-- same.
abbrev cleared_late : Try Disk
cleared_late = record overtaken {
  answer = λ cmd. ok (codes "{}");
  during_refresh = λ s. s;
  during_adopt = clear_token (file_store working);
}

cleared_late-token :
    is_empty
      (refresh_once willing_json plain_digests
        (file_store working)
        (codes "admin")
        cleared_late
        shared).0.token
    ≡ false
unfolding refresh_once on_hash on_refresh_answer is_empty bytes_eq build_token_hash
    apply_valid_until set_token persist parse_getkey_value parse_json require_ll_ok ll_status_code
    hash_token hmac_hex ll_value read_valid_until clear_token
cleared_late-token = refl
