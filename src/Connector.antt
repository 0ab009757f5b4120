-- ===== src/Connector.antt =====
-- crates/core/src/connector.rs: the connector over arti's client, and the mocks that the tests of the program use. A stream
-- and arti's `connect` are arguments.
use nullpipe.Common.{
  ℕ, suc, ◌+◌, ◌%◌, ◌^◌, ◌<◌, ◌≡◌, refl, ap, ◌∙◌, Option, none, some, List, [], ◌∷◌, ◌++◌, map,
  length, Result, err, map_err, arith,
}
use nullpipe.Std.Text.{Text, lit}
use nullpipe.Types.{ChatError, connection}

module _ (S : Type 0) where
  abbrev Target : Type 0
  Target = Text × ℕ

  -- `ArtiConnector::connect`, on arti's `connect`.
  pub arti_connect : (Target → Result S Text) → Text → ℕ → Result S ChatError
  arti_connect arti addr port =
      map_err (λ e. connection (lit "connect failed: " ++ e)) (arti (addr, port))

  -- The number of calls is a `usize`.
  pub record MockTorConnector : Type 0 where
    pub connect_result : Option (Result S ChatError)
    pub connect_calls : ℕ
    pub last_connect_target : Option Target

  abbrev pub consumed : ChatError
  consumed = connection (lit "mock: result consumed")

  pub new : MockTorConnector
  new = record {
    connect_result = some (err (connection (lit "mock: connect not configured")));
    connect_calls = 0;
    last_connect_target = none;
  }

  unfoldable pub with_connect_result : Result S ChatError → MockTorConnector
  with_connect_result result = record {
    connect_result = some result;
    connect_calls = 0;
    last_connect_target = none;
  }

  abbrev pub call_count : MockTorConnector → ℕ
  call_count m = m.connect_calls

  abbrev pub last_target : MockTorConnector → Option Target
  last_target m = m.last_connect_target

  abbrev or_consumed : Option (Result S ChatError) → Result S ChatError
  or_consumed none = err consumed
  or_consumed (some result) = result

  -- The result is taken out, so that it is given once.
  unfoldable pub connect : Target → MockTorConnector → Result S ChatError × MockTorConnector
  connect target m = (
    or_consumed m.connect_result,
    record {
      connect_result = none;
      connect_calls = (m.connect_calls + 1) % 2 ^ 64;
      last_connect_target = some target;
    },
  )

  -- `MockAcceptor`, on the streams that its channel still gives; `none` when the sender is gone.
  pub accept : List S → Option S × List S
  accept [] = (none, [])
  accept (s ∷ streams) = (some s, streams)

  unfoldable pub connect_all :
      List Target → MockTorConnector → List (Result S ChatError) × MockTorConnector
  connect_all [] m = ([], m)
  connect_all (t ∷ targets) m =
      let (results, m') = connect_all targets (connect t m).1 in ((connect t m).0 ∷ results, m')

  abbrev pub last_of : Target → List Target → Target
  last_of t [] = t
  last_of t (u ∷ targets) = last_of u targets

  connect-spent :
      (t : Target) (m : MockTorConnector) → m.connect_result ≡ none → (connect t m).0 ≡ err consumed
  unfolding connect
  connect-spent t m e = ap or_consumed e

  connect_all-spent :
      (targets : List Target) (m : MockTorConnector) (t : Target)
      → m.connect_result ≡ none
      → m.connect_calls < 2 ^ 64
      → m.last_connect_target ≡ some t
      → let (results, m') = connect_all targets m in
        (results ≡ map (λ u. err consumed) targets)
        × (call_count m' ≡ (m.connect_calls + length targets) % 2 ^ 64)
        × (last_target m' ≡ some (last_of t targets))
  unfolding connect_all
  connect_all-spent [] m t e small l = (refl, omega arith, l)
  connect_all-spent (u ∷ targets) m t e small l =
      let (results, calls, last) =
        connect_all-spent targets (connect u m).1 u (unfold connect in refl)
          (unfold connect in omega arith) (unfold connect in refl) in
      (
        ap (λ r. r ∷ (connect_all targets (connect u m).1).0) (connect-spent u m e)
            ∙ ap (λ l. err consumed ∷ l) results,
        calls ∙ (unfold connect in omega arith),
        last,
      )

  -- Of any calls of the mock, the first gives the configured result and the others fail; it counts them modulo 2^64 and
  -- keeps the last target.
  pub connect_all-once :
      (result : Result S ChatError) (t : Target) (targets : List Target)
      → let (results, m) = connect_all (t ∷ targets) (with_connect_result result) in
        (results ≡ result ∷ map (λ u. err consumed) targets)
        × (call_count m ≡ suc (length targets) % 2 ^ 64)
        × (last_target m ≡ some (last_of t targets))
  unfolding connect_all connect with_connect_result
  connect_all-once result t targets =
      let (results, calls, last) =
        connect_all-spent targets (connect t (with_connect_result result)).1 t refl (omega arith)
          refl in
      (ap (λ l. result ∷ l) results, calls ∙ omega arith, last)
