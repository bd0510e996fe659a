-- ===== src/Pending/Label.antt =====
-- What `cmd_label` keeps of a command.
use loxwebsocketclient_rs.Prelude.{
  ℕ, ◌+◌, ◌≡◌, ◌≢◌, refl, sym, ap, ◌∙◌, inl, inr, arith, false, [], ◌∷◌, ◌++◌, append_assoc, length,
  take, take_prefix, length-append, min, ◌==◌, Bool-cases, Bytes,
}
use loxwebsocketclient_rs.Str.{codes, bytes_eq, strip_prefix, starts_with}
use loxwebsocketclient_rs.Str.Laws.{Free, split-append, bytes_eq_iff, starts_with-append}
use loxwebsocketclient_rs.Pending.{segments_end, take_segments, cmd_label}

starts_with-segment :
    (w v rest : Bytes)
    → Free b'/' w
    → Free b'/' v
    → starts_with (w ++ (b'/' ∷ [])) (v ++ (b'/' ∷ rest)) ≡ bytes_eq w v
unfolding starts_with strip_prefix bytes_eq
starts_with-segment [] [] rest hw hv = refl
starts_with-segment [] (y ∷ v) rest hw hv = let h = hv.0 in ground arith
starts_with-segment (x ∷ w) [] rest hw hv = rw (hw.0, starts_with)
starts_with-segment (x ∷ w) (y ∷ v) rest hw hv = elim (Bool-cases (x == y)) [
  | inl e ↦ rw (e, starts_with) (starts_with-segment w v rest hw.1 hv.1)
  | inr e ↦ rw (e, starts_with)
]

take-all : (a b : Bytes) (n : ℕ) → n ≡ length a → take (min n (length (a ++ b))) (a ++ b) ≡ a
take-all a b n e = take_prefix (min n (length (a ++ b))) a b (omega (arith, length-append a b))

take_segments-first : (v rest : Bytes) → Free b'/' v → take_segments (v ++ (b'/' ∷ rest)) 1 ≡ v
unfolding take_segments segments_end
take_segments-first v rest h =
    rw (split-append b'/' v rest h) (take-all v (b'/' ∷ rest) _ (omega arith))

take_segments-third :
    (u v w rest : Bytes)
    → Free b'/' u
    → Free b'/' v
    → Free b'/' w
    → take_segments (u ++ (b'/' ∷ v ++ (b'/' ∷ w ++ (b'/' ∷ rest)))) 3
      ≡ u ++ (b'/' ∷ v ++ (b'/' ∷ w))
unfolding take_segments segments_end
take_segments-third u v w rest hu hv hw =
    rw
      (
        split-append b'/' u (v ++ (b'/' ∷ w ++ (b'/' ∷ rest))) hu,
        split-append b'/' v (w ++ (b'/' ∷ rest)) hv,
        split-append b'/' w rest hw,
      )
      (ap (λ (z : Bytes). take (min (0 + length u + 1 + length v + 1 + length w) (length z)) z)
          regroup
        ∙ take-all (u ++ (b'/' ∷ v ++ (b'/' ∷ w))) (b'/' ∷ rest) _ count)
  where
    regroup :
        u ++ (b'/' ∷ v ++ (b'/' ∷ w ++ (b'/' ∷ rest)))
        ≡ (u ++ (b'/' ∷ v ++ (b'/' ∷ w))) ++ (b'/' ∷ rest)
    regroup = sym (
        append_assoc u (b'/' ∷ v ++ (b'/' ∷ w)) (b'/' ∷ rest)
        ∙ ap (λ (z : Bytes). u ++ (b'/' ∷ z)) (append_assoc v (b'/' ∷ w) (b'/' ∷ rest)))

    count : 0 + length u + 1 + length v + 1 + length w ≡ length (u ++ (b'/' ∷ v ++ (b'/' ∷ w)))
    count = omega (arith, length-append u (b'/' ∷ v ++ (b'/' ∷ w)), length-append v (b'/' ∷ w))

-- Of a command whose first segment is neither `jdev` nor `dev`, the label is that segment, and of a
-- `jdev` command with more than three segments it is the first three: whatever hashes, tokens and
-- users stand behind them do not matter.
pub cmd_label-segments :
    (u v w rest : Bytes)
    → Free b'/' u
    → Free b'/' v
    → Free b'/' w
    → u ≢ codes "jdev"
    → u ≢ codes "dev"
    → (cmd_label (u ++ (b'/' ∷ rest)) ≡ u)
      × (cmd_label (codes "jdev" ++ (b'/' ∷ v ++ (b'/' ∷ w ++ (b'/' ∷ rest))))
          ≡ codes "jdev" ++ (b'/' ∷ v ++ (b'/' ∷ w)))
unfolding cmd_label
cmd_label-segments u v w rest hu hv hw nj nd = (
  rw (other (codes "jdev") jdev nj, other (codes "dev") dev nd) (take_segments-first u rest hu),
  rw (starts_with-append (codes "jdev/") (v ++ (b'/' ∷ w ++ (b'/' ∷ rest))))
      (take_segments-third (codes "jdev") v w rest jdev hv hw),
)
  where
    jdev : Free b'/' (codes "jdev")
    jdev = (refl, (refl, (refl, (refl, tt))))

    dev : Free b'/' (codes "dev")
    dev = (refl, (refl, (refl, tt)))

    other :
        (t : Bytes)
        → Free b'/' t
        → u ≢ t
        → starts_with (t ++ (b'/' ∷ [])) (u ++ (b'/' ∷ rest)) ≡ false
    other t ht ne = starts_with-segment t u rest ht hu ∙ elim (Bool-cases (bytes_eq t u)) [
      | inl e ↦ absurd (ne (sym ((bytes_eq_iff t u).0 e)))
      | inr e ↦ e
    ]
