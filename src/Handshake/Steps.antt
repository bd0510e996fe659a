-- ===== src/Handshake/Steps.antt =====
-- Steps of the handshake that succeed.
use loxwebsocketclient_rs.Prelude.{◌≡◌, refl, ap}
use loxwebsocketclient_rs.Error.{Result, ok, err}
use loxwebsocketclient_rs.Handshake.{Handshake, Step, continue_with, ◌>>=◌, answer}

module _ {P : Type 0} where
  -- What a step gives when it succeeds.
  abbrev pub Yields : {A : Type 0} → (A → Type 0) → Step P A → Type 0
  Yields {A} Q m = (h h' : Handshake P) (a : A) → m h ≡ (h', ok a) → Q a

  pub continue_with-ok :
      {A B : Type 0} (r : Handshake P × Result A) (f : A → Step P B) (h' : Handshake P) (b : B)
      → continue_with r f ≡ (h', ok b)
      → (h : Handshake P) × (a : A) × (f a h ≡ (h', ok b)) × (r ≡ (h, ok a))
  unfolding continue_with
  continue_with-ok (h, ok a) f h' b e = (h, a, e, refl)
  continue_with-ok (h, err x) f h' b e = let failed' : err x ≡ ok b = ap (λ z. z.1) e in absurd (cc)

  pub bind-Yields :
      {A B : Type 0} (Q : B → Type 0) (m : Step P A) (f : A → Step P B)
      → ((a : A) → Yields Q (f a))
      → Yields Q (m >>= f)
  bind-Yields Q m f hf h h' b e =
      let (h1, a, e1, _) = continue_with-ok (m h) f h' b e in hf a h1 h' b e1

  pub answer-Yields :
      {A : Type 0} (Q : A → Type 0) (r : Result A)
      → ((a : A) → r ≡ ok a → Q a)
      → Yields Q (answer r)
  answer-Yields Q r hq h h' a e = hq a (ap (λ z. z.1) e)
