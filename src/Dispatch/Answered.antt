-- ===== src/Dispatch/Answered.antt =====
-- What an answer does to the commands that wait, once one of them is resolved.
use loxwebsocketclient_rs.Prelude.{
  ◌≡◌, refl, ap, ◌∙◌, Bool, true, false, ◌&&◌, not, List, [], ◌∷◌, ◌++◌, Bytes,
}
use loxwebsocketclient_rs.Error.{Result, ok, err}
use loxwebsocketclient_rs.Json.{Json}
use loxwebsocketclient_rs.Hash.{KeySalt, Digests, hash_visu_password}
use loxwebsocketclient_rs.Session.{Primitives, SessionKeys}
use loxwebsocketclient_rs.Flow.{parse_key_salt, cmd_get_visual_passwd}
use loxwebsocketclient_rs.Str.{starts_with}
use loxwebsocketclient_rs.Writer.{VisuPending}
use loxwebsocketclient_rs.Pending.{Resolved, Reply, send}
use loxwebsocketclient_rs.Dispatch.{
  HandlerCall, Inbox, on_resolved, flush_visu, send_items, send_item, flush_with, flush_if,
  count_mismatch, is_empty,
}

module _ (panics : List HandlerCall → HandlerCall → Bool) (j : Json) (d : Digests) (p : Primitives)
    (keys : SessionKeys) where
  -- What concerns the commands that wait stays.
  abbrev Same : Inbox → Inbox → Type 0
  Same s t = (t.pending ≡ s.pending) × (t.replies ≡ s.replies)

  send_item-Same :
      (r : Result Bytes) (open_ : Bool) (item : VisuPending) (next : Inbox → Inbox) (s : Inbox)
      → ((s' : Inbox) → Same s' (next s'))
      → Same s (send_item panics j d p keys r open_ item next s)
  unfolding send_item
  send_item-Same (err e) open_ item next s h = h s
  send_item-Same (ok hash) false item next s h = (refl, refl)
  send_item-Same (ok hash) true item next s h = let (hp, hr) = h _ in (hp, hr)

  send_items-Same :
      (ks : KeySalt) (items : List VisuPending) (s : Inbox)
      → Same s (send_items panics j d p keys ks items s)
  unfolding send_items
  send_items-Same ks [] s = (refl, refl)
  send_items-Same ks (item ∷ items) s =
      send_item-Same (hash_visu_password d ks item.visu_pw) s.writer_open item
        (λ s'. send_items panics j d p keys ks items s') s (send_items-Same ks items)

  flush_with-Same :
      (r : Result KeySalt) (items : List VisuPending) (s : Inbox)
      → Same s (flush_with panics j d p keys r items s)
  unfolding flush_with
  flush_with-Same (err e) items s = (refl, refl)
  flush_with-Same (ok ks) items s = send_items-Same ks items s

  flush_if-Same :
      (b : Bool) (payload : Bytes) (s : Inbox) → Same s (flush_if panics j d p keys b payload s)
  unfolding flush_visu
  flush_if-Same false payload s = (refl, refl)
  flush_if-Same true payload s =
      flush_with-Same (parse_key_salt j payload) s.visu (record s { visu = [] })

  count_mismatch-Same : (b : Bool) (s : Inbox) → Same s (count_mismatch panics j d p keys b s)
  count_mismatch-Same true s = (refl, refl)
  count_mismatch-Same false s = (refl, refl)

  pub on_resolved-Served :
      (payload : Bytes) (r : Resolved) (s : Inbox)
      → ((on_resolved panics j d p keys payload r s).pending ≡ s.pending)
        × ((on_resolved panics j d p keys payload r s).replies
            ≡ s.replies ++ send r.resp (ok payload))
  unfolding on_resolved
  on_resolved-Served payload r s =
      let counted = count_mismatch panics j d p keys r.matched s in
      let (ce, cr) = count_mismatch-Same r.matched s in
      let (fe, fr) =
        flush_if-Same
          (starts_with cmd_get_visual_passwd r.plaintext_cmd
            && not (is_empty panics j d p keys counted.visu))
          payload counted in
      (fe ∙ ce, ap (λ (rs : List Reply). rs ++ send r.resp (ok payload)) (fr ∙ cr))
