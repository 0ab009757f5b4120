-- ===== src/External/Actions.antt =====
-- Async functions that return `Result<A, ChatError>` over a stream. What was read or written before an
-- error stays read or written, so the stream's state comes back beside the error too.
use nullpipe.Common.{◌≡◌, ◌++◌, Result, ok, err}
use nullpipe.Std.Text.{Text}
use nullpipe.Types.{ChatError, connection}
use nullpipe.External.Streams.{Timed, elapsed}

abbrev pub Action : Type 0 → Type 0 → Type 0
Action S A = S → Result A ChatError × S

module _ {A : Type 0} where
  abbrev pub flatten_timed : Text → Text → Timed A → Result A ChatError
  flatten_timed late failed (err elapsed) = err (connection late)
  flatten_timed late failed (ok (err e)) = err (connection (failed ++ e.to_string))
  flatten_timed late failed (ok (ok a)) = ok a

module _ {S A : Type 0} where
  abbrev pub pure : A → Action S A
  pure a s = (ok a, s)

  abbrev pub raise : ChatError → Action S A
  raise e s = (err e, s)

  abbrev pub lift : Result A ChatError → Action S A
  lift r s = (r, s)

  -- `timeout(d, op).await.map_err(|_| Connection(late))?.map_err(|e| Connection(format!("{failed}{e}")))?`
  unfoldable pub timed : Text → Text → (S → Timed A × S) → Action S A
  timed late failed op s = (flatten_timed late failed (op s).0, (op s).1)

  -- The action ends well, with this value and in this state.
  abbrev pub Returns : Action S A → S → A → S → Type 0
  Returns m s a t = m s ≡ (ok a, t)

  -- The action ends with this error, in this state.
  abbrev pub Raises : Action S A → S → ChatError → S → Type 0
  Raises m s e t = m s ≡ (err e, t)

  pub Returns-timed :
      (late failed : Text) (op : S → Timed A × S) (s : S) {a : A}
      → (op s).0 ≡ ok (ok a)
      → Returns (timed late failed op) s a (op s).1
  unfolding timed
  Returns-timed late failed op s h = rw h

  pub Raises-timed_late :
      (late failed : Text) (op : S → Timed A × S) (s : S)
      → (op s).0 ≡ err elapsed
      → Raises (timed late failed op) s (connection late) (op s).1
  unfolding timed
  Raises-timed_late late failed op s h = rw h

module _ {S A B : Type 0} where
  abbrev continue : Result A ChatError → (A → Action S B) → Action S B
  continue (ok a) f s = f a s
  continue (err e) f s = (err e, s)

  infixl 5 ◌>>=◌ ◌>>◌
  unfoldable pub ◌>>=◌ : Action S A → (A → Action S B) → Action S B
  ◌>>=◌ m f s = continue (m s).0 f (m s).1

  abbrev pub ◌>>◌ : Action S A → Action S B → Action S B
  m >> n = m >>= λ _. n

  pub Returns-bind :
      (m : Action S A) (f : A → Action S B) {s t u : S} {a : A} {b : B}
      → Returns m s a t
      → Returns (f a) t b u
      → Returns (m >>= f) s b u
  unfolding ◌>>=◌
  Returns-bind m f p q = rw p q

  pub Raises-bind :
      (m : Action S A) (f : A → Action S B) {s t u : S} {a : A} {e : ChatError}
      → Returns m s a t
      → Raises (f a) t e u
      → Raises (m >>= f) s e u
  unfolding ◌>>=◌
  Raises-bind m f p q = rw p q

  pub Raises-bind_first :
      (m : Action S A) (f : A → Action S B) {s t : S} {e : ChatError}
      → Raises m s e t
      → Raises (m >>= f) s e t
  unfolding ◌>>=◌
  Raises-bind_first m f p = rw p
