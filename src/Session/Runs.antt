-- ===== src/Session/Runs.antt =====
-- Runs of the salt sequence at concrete inputs.
use loxwebsocketclient_rs.Prelude.{refl, arith, List, [], ◌∷◌, replicate, IsByte, Bytes}
use loxwebsocketclient_rs.Str.{codes}
use loxwebsocketclient_rs.Session.{new, Env}
use loxwebsocketclient_rs.Session.Salt.{IsEnv}
use loxwebsocketclient_rs.Session.Chain.{Serves, fill_all, fill_all-Serves}

abbrev some_env : Env
some_env = record { now_secs = 1000; raw = replicate 16 171 }

some_env-IsEnv : IsEnv some_env
some_env-IsEnv = record {
  raw_len = refl;
  raw_range =
      let h : IsByte 171 = omega arith in
      (h, (h, (h, (h, (h, (h, (h, (h, (h, (h, (h, (h, (h, (h, (h, (h, tt))))))))))))))));
}

abbrev later_env : Env
later_env = record { now_secs = 9000; raw = replicate 16 18 }

later_env-IsEnv : IsEnv later_env
later_env-IsEnv = record {
  raw_len = refl;
  raw_range =
      let h : IsByte 18 = omega arith in
      (h, (h, (h, (h, (h, (h, (h, (h, (h, (h, (h, (h, (h, (h, (h, (h, tt))))))))))))))));
}

abbrev sends : List (Env × Bytes)
sends = (some_env, codes "a") ∷ (some_env, codes "b") ∷ (later_env, codes "c") ∷ []

fill_all-Serves_example : Serves [] 0 (fill_all new sends) (codes "a" ∷ codes "b" ∷ codes "c" ∷ [])
fill_all-Serves_example =
    fill_all-Serves sends (some_env-IsEnv, (some_env-IsEnv, (later_env-IsEnv, tt)))
