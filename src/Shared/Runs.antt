-- ===== src/Shared/Runs.antt =====
-- The token in memory and in the file, on a concrete run.
use loxwebsocketclient_rs.Prelude.{refl, arith, some, [], ◌∷◌}
use loxwebsocketclient_rs.Store.{Disk, has_break}
use loxwebsocketclient_rs.Store.Record.{has_break-IsOneLine}
use loxwebsocketclient_rs.Store.Refine.{file_store, file_store_laws}
use loxwebsocketclient_rs.Store.Runs.{home, jwt, working, no_file}
use loxwebsocketclient_rs.Token.{is_empty}
use loxwebsocketclient_rs.Shared.{SharedState, new, restore_token}
use loxwebsocketclient_rs.Shared.Mirror.{
  set_to, forget, token_ops, Mirrors, token_ops-restore_token,
}

abbrev fresh : SharedState Disk
fresh = new (some home) no_file

token_ops-restore_token_example : Mirrors (file_store working) home (
    token_ops
      (file_store working)
      (forget ∷ set_to jwt ∷ [])
      (restore_token (file_store working) 0 fresh))
unfolding new is_empty has_break
token_ops-restore_token_example =
    token_ops-restore_token (file_store working) (file_store_laws working refl refl) 0 home
      (forget ∷ set_to jwt ∷ []) fresh refl refl
      (tt, ((has_break-IsOneLine home refl, (omega arith, refl)), tt))
