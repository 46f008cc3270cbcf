-- ===== src/Connection/Aio/Pending.antt =====
-- The requests that wait for an answer, in every state that sending, answers and giving up requests
-- lead to.
use mathlib.Core.Path.{subst}
use python_thin_client.Prelude.{
  ℕ, ◌<◌, ◌≡◌, ◌≢◌, ◌⊎◌, inl, inr, refl, none, some, List, arith, ==_iff, Bool-cases, Option-cases,
}
use python_thin_client.Prelude.Int.{ℤ}
use python_thin_client.Prelude.Dict.{
  lookup, delete, int_key, Distinct, eq_ℤ_iff, lookup-insert, lookup-delete, insert-Distinct,
  delete-Distinct,
}
use python_thin_client.Connection.Aio.{
  handled, failed, waiting, cancelled, result, AioConnection, put, is_waiting, connected,
  request_id, answer, process_message, send, cancel,
}

-- What can happen to a connection that is alive. `get_query_id` gives identifiers that are not in use.
pub data Step : AioConnection → AioConnection → Type 0 where
  sent :
      {c : AioConnection} (query_id : ℤ)
      → lookup query_id c.pending_reqs ≡ none
      → Step c (send query_id c)
  arrived :
      {c d : AioConnection} (packet : List ℕ) → process_message packet c ≡ handled d → Step c d
  given_up : {c : AioConnection} (i : ℕ) → Step c (cancel i c)

pub data Reach (c : AioConnection) : AioConnection → Type 0 where
  here : Reach c c
  next : {d e : AioConnection} → Reach c d → Step d e → Reach c e

-- The requests and their futures fit together: a result is an answer with the identifier of its
-- request, a future that waits is found under its identifier, and what is found is a future of that
-- request that waits or was given up.
pub record IsSound (c : AioConnection) : Type 0 where
  pub distinct : Distinct c.pending_reqs
  pub belongs :
      (i : ℕ) (packet : List ℕ)
      → (c.future i).state ≡ result packet
      → request_id packet ≡ (c.future i).query_id
  pub found :
      (i : ℕ)
      → i < c.created
      → (c.future i).state ≡ waiting
      → lookup (c.future i).query_id c.pending_reqs ≡ some i
  pub owned :
      (q : ℤ) (i : ℕ)
      → lookup q c.pending_reqs ≡ some i
      → (i < c.created)
        × ((c.future i).query_id ≡ q)
        × (((c.future i).state ≡ waiting) ⊎ ((c.future i).state ≡ cancelled))

handled_inj : {c d : AioConnection} → handled c ≡ handled d → c ≡ d
handled_inj e = cc

module _ {c : AioConnection} (v : IsSound c) where
  send-IsSound : (q : ℤ) → lookup q c.pending_reqs ≡ none → IsSound (send q c)
  unfolding send
  send-IsSound q fresh = record {
    distinct = insert-Distinct q c.created c.pending_reqs v.distinct;
    belongs = λ i packet e. ground (arith, v.belongs i packet);
    found = λ i h e. ground (
      arith,
      v.found i,
      lookup-insert q (c.future i).query_id c.created c.pending_reqs,
      lookup-insert q q c.created c.pending_reqs,
      eq_ℤ_iff q (c.future i).query_id,
      eq_ℤ_iff q q,
    );
    owned = λ p i e.
        ground (arith, lookup-insert q p c.created c.pending_reqs, eq_ℤ_iff q p, v.owned p i);
  }

  cancel-IsSound : (i : ℕ) → IsSound (cancel i c)
  unfolding cancel put is_waiting
  cancel-IsSound i = elim (Bool-cases (is_waiting (c.future i).state)) [
    | inr done ↦ rw done v
    | inl still ↦ rw still (record {
      distinct = v.distinct;
      belongs = λ j packet e. ground (arith, v.belongs j packet);
      found = λ j h e. ground (arith, v.found j);
      owned = λ q j e. ground (arith, v.owned q j);
    })
  ]

  answer-IsSound :
      (packet : List ℕ) (i : ℕ)
      → lookup (request_id packet) c.pending_reqs ≡ some i
      → {d : AioConnection} → answer packet (request_id packet) (some i) c ≡ handled d
      → IsSound d
  unfolding answer put is_waiting
  answer-IsSound packet i there {d} e = elim (Bool-cases (is_waiting (c.future i).state)) [
    | inr done ↦ let bad : failed c ≡ handled d = rw (done, answer) at e in cc
    | inl still ↦
        let c' : AioConnection = record c {
          future = put i (result packet) c.future;
          pending_reqs = delete (request_id packet) c.pending_reqs;
        } in
        let same : handled c' ≡ handled d = rw (still, answer) at e in
        let kept : IsSound c' = record {
          distinct = delete-Distinct (request_id packet) c.pending_reqs v.distinct;
          belongs = λ j p h. ground (arith, v.belongs j p, v.owned (request_id packet) i);
          found = λ j h w. ground (
            arith,
            v.found j,
            lookup-delete (request_id packet) (c.future j).query_id c.pending_reqs,
            eq_ℤ_iff (request_id packet) (c.future j).query_id,
          );
          owned = λ q j h. ground (
            arith,
            v.owned q j,
            v.owned (request_id packet) i,
            lookup-delete (request_id packet) q c.pending_reqs,
            eq_ℤ_iff (request_id packet) q,
          );
        } in
        subst IsSound (handled_inj same) kept
  ]

  process_message-IsSound :
      (packet : List ℕ) {d : AioConnection} → process_message packet c ≡ handled d → IsSound d
  unfolding process_message answer
  process_message-IsSound packet {d} e =
      elim (Option-cases (lookup (request_id packet) c.pending_reqs)) [
        | inl none_there ↦ subst IsSound (handled_inj (rw none_there at e)) v
        | inr (i, there) ↦ answer-IsSound packet i there (rw there at e)
      ]

Step-IsSound : {c d : AioConnection} → IsSound c → Step c d → IsSound d
Step-IsSound v (sent q fresh) = send-IsSound v q fresh
Step-IsSound v (arrived packet e) = process_message-IsSound v packet e
Step-IsSound v (given_up i) = cancel-IsSound v i

connected-IsSound : IsSound connected
unfolding lookup
connected-IsSound = record {
  distinct = tt;
  belongs = λ i packet e. cc;
  found = λ i h e. absurd (omega arith);
  owned = λ q i e. cc;
}

-- Whatever requests, answers and time-outs a new connection has seen: each result is an answer with
-- the identifier of its request, each request that waits is found under its identifier, and what is
-- found under an identifier is a request with it that waits or was given up.
pub Reach-IsSound : {c : AioConnection} → Reach connected c → IsSound c
Reach-IsSound here = connected-IsSound
Reach-IsSound (next r st) = Step-IsSound (Reach-IsSound r) st

-- An answer with the identifier of a request that waits is its result, and leaves all others alone.
pub process_message-answers :
    {c : AioConnection} (i : ℕ) (packet : List ℕ)
    → Reach connected c
    → i < c.created
    → (c.future i).state ≡ waiting
    → request_id packet ≡ (c.future i).query_id
    → (d : AioConnection) × (process_message packet c ≡ handled d)
      × ((d.future i).state ≡ result packet)
      × ((j : ℕ) → j ≢ i → d.future j ≡ c.future j)
unfolding process_message answer put is_waiting
process_message-answers {c} i packet r h w e =
    let v = Reach-IsSound r in
    let there : lookup (request_id packet) c.pending_reqs ≡ some i = rw e (v.found i h w) in
    (
      record c {
        future = put i (result packet) c.future;
        pending_reqs = delete (request_id packet) c.pending_reqs;
      },
      rw (there, answer, w) refl,
      ground (arith, ==_iff i i),
      λ j other. ground arith,
    )
