-- ===== src/Connection/Aio/Ending.antt =====
-- What a connection that is lost does to the requests that wait.
use mathlib.Core.Path.{subst}
use python_thin_client.Prelude.{
  ℕ, ◌<◌, ◌≡◌, ◌≢◌, ◌⊎◌, inl, inr, refl, true, false, some, List, [], ◌∷◌, ◌++◌, arith, ◌==◌,
  ==_iff, Bool-cases,
}
use python_thin_client.Prelude.Int.{ℤ}
use python_thin_client.Prelude.Dict.{
  Dict, lookup, has, Distinct, Entries, Entries-both, Entries-lookup, lookup_entries, append_apart,
  append-Distinct, Entries-append_right, int_key, eq_ℤ_iff,
}
use python_thin_client.Connection.Aio.{
  handled, failed, waiting, cancelled, excepted, result, Future, AioConnection, put, connected,
  except_all, clear, process_connection_lost,
}
use python_thin_client.Connection.Aio.Pending.{Reach, IsSound, Reach-IsSound}

-- No request that waits for its answer was given up.
abbrev pub NoneGivenUp : AioConnection → Type 0
NoneGivenUp c = (i : ℕ) → i < c.created → (c.future i).state ≢ cancelled

-- The futures under the identifiers of a dictionary all wait, and none stands under two of them.
abbrev pub AllWait : Dict ℤ ℕ → (ℕ → Future) → Type 0
AllWait reqs future = Entries (λ q i. ((future i).state ≡ waiting) × ((future i).query_id ≡ q)) reqs

-- A future of a request that is not among those of a dictionary is not one of theirs.
AllWait-put :
    (q : ℤ) (i : ℕ) (reqs : Dict ℤ ℕ) (future : ℕ → Future)
    → (future i).query_id ≡ q
    → has q reqs ≡ false
    → AllWait reqs future
    → AllWait reqs (put i excepted future)
unfolding put has
AllWait-put q i [] future own apart h = tt
AllWait-put q i ((p, j) ∷ reqs) future own apart h =
    (ground (arith, eq_ℤ_iff p q), AllWait-put q i reqs future own (ground arith) h.1)

-- What became of a future, from what becomes of it once the future i has its exception.
abbrev Became : (ℕ → Future) → (ℕ → Future) → ℕ → Type 0
Became f future j = (f j ≡ future j) ⊎ (((f j).state ≡ excepted) × ((future j).state ≡ waiting))

Became-put :
    (i j : ℕ) (f future : ℕ → Future)
    → (future i).state ≡ waiting
    → Became f (put i excepted future) j
    → Became f future j
unfolding put
Became-put i j f future w (inl kept) = elim (Bool-cases (i == j)) [
  | inl same ↦ inr (ground arith, ground arith)
  | inr other ↦ inl (rw other at kept)
]
Became-put i j f future w (inr (ended, waited)) = inr (ended, ground arith)

Became-excepted :
    (i : ℕ) (f future : ℕ → Future) → Became f (put i excepted future) i → (f i).state ≡ excepted
unfolding put
Became-excepted i f future (inl kept) = ground (arith, ==_iff i i)
Became-excepted i f future (inr (ended, waited)) = ended

except_all_lem :
    (reqs : Dict ℤ ℕ) (future : ℕ → Future)
    → AllWait reqs future
    → Distinct reqs
    → (f : ℕ → Future) × (except_all reqs future ≡ handled f)
      × Entries (λ q i. (f i).state ≡ excepted) reqs
      × ((i : ℕ) → Became f future i)
unfolding except_all put
except_all_lem [] future h a = (future, refl, tt, λ i. inl refl)
except_all_lem ((q, i) ∷ reqs) future h a =
    let (f, done, ended, others) =
      except_all_lem reqs (put i excepted future) (AllWait-put q i reqs future h.0.1 a.0 h.1) a.1 in
    (
      f,
      rw h.0.0 done,
      (Became-excepted i f future (others i), ended),
      λ j. Became-put i j f future h.0.0 (others j),
    )

Became-kept :
    (i : ℕ) (packet : List ℕ) (f future : ℕ → Future)
    → (future i).state ≡ result packet
    → Became f future i
    → f i ≡ future i
Became-kept i packet f future e (inl kept) = kept
Became-kept i packet f future e (inr (ended, waited)) = cc

-- The requests that are pending, where none was given up.
all_wait : {c : AioConnection} → IsSound c → NoneGivenUp c → AllWait c.pending_reqs c.future
all_wait {c} v kept =
    Entries-both (λ q i there same. (waits q i there, (v.owned q i there).1)) c.pending_reqs
      (lookup_entries c.pending_reqs v.distinct) (lookup_entries c.pending_reqs v.distinct)
  where
    waits : (q : ℤ) (i : ℕ) → lookup q c.pending_reqs ≡ some i → (c.future i).state ≡ waiting
    waits q i there = elim (v.owned q i there).2 [
      | inl w ↦ w
      | inr gone ↦ absurd (kept i (v.owned q i there).0 gone)
    ]

-- Where no request was given up, a connection that is lost ends each request that waits with an
-- exception, keeps the results of the others, and has no request pending.
pub process_connection_lost_ends :
    {c : AioConnection}
    → Reach connected c
    → NoneGivenUp c
    → (d : AioConnection) × (process_connection_lost c ≡ handled d)
      × (d.pending_reqs ≡ [])
      × ((i : ℕ) → i < c.created → (c.future i).state ≡ waiting → (d.future i).state ≡ excepted)
      × ((i : ℕ) (packet : List ℕ) → (c.future i).state ≡ result packet → d.future i ≡ c.future i)
unfolding process_connection_lost clear
process_connection_lost_ends {c} r kept =
    let v = Reach-IsSound r in
    let (f, done, ended, became) =
      except_all_lem c.pending_reqs c.future (all_wait v kept) v.distinct in
    (
      record c { failed = true; future = f; pending_reqs = [] },
      rw done,
      refl,
      λ i h w.
          Entries-lookup (λ q j. (f j).state ≡ excepted) (c.future i).query_id i c.pending_reqs
            ended (v.found i h w),
      λ i packet e. Became-kept i packet f c.future e (became i),
    )

except_all_stops :
    (reqs later : Dict ℤ ℕ) (q : ℤ) (i : ℕ) (future : ℕ → Future)
    → AllWait reqs future
    → Distinct reqs
    → (future i).state ≡ cancelled
    → (f : ℕ → Future) × (except_all (reqs ++ (q, i) ∷ later) future ≡ failed f)
      × ((j : ℕ) → has (future j).query_id reqs ≡ false → f j ≡ future j)
unfolding except_all has put
except_all_stops [] later q i future h a gone = (future, rw gone refl, λ j e. refl)
except_all_stops ((p, k) ∷ reqs) later q i future h a gone =
    let (f, stopped, kept) =
      except_all_stops reqs later q i (put k excepted future)
        (AllWait-put p k reqs future h.0.1 a.0 h.1) a.1 (ground arith) in
    (f, rw h.0.0 stopped, λ j e. ground (arith, eq_ℤ_iff p (future j).query_id, kept j))

-- A request that was given up and is still pending is an end for others: when the connection is lost,
-- its future raises, the requests that stand behind it keep waiting, and all stay pending.
pub process_connection_lost_stops :
    {c : AioConnection} (reqs later : Dict ℤ ℕ) (q : ℤ) (i : ℕ)
    → Reach connected c
    → c.pending_reqs ≡ reqs ++ (q, i) ∷ later
    → AllWait reqs c.future
    → (c.future i).state ≡ cancelled
    → (d : AioConnection) × (process_connection_lost c ≡ failed d)
      × (d.pending_reqs ≡ c.pending_reqs)
      × Entries (λ p j. d.future j ≡ c.future j) later
unfolding process_connection_lost clear
process_connection_lost_stops {c} reqs later q i r e waits gone =
    let v = Reach-IsSound r in
    let distinct : Distinct (reqs ++ (q, i) ∷ later) = rw (← e) v.distinct in
    let (f, stopped, kept) =
      except_all_stops reqs later q i c.future waits (append-Distinct reqs _ distinct) gone in
    let there : Entries (λ p j. lookup p c.pending_reqs ≡ some j) (reqs ++ (q, i) ∷ later) =
      subst (Entries (λ p j. lookup p c.pending_reqs ≡ some j)) e
        (lookup_entries c.pending_reqs v.distinct) in
    (
      record c { failed = true; future = f },
      rw (e, stopped) refl,
      refl,
      Entries-both (λ p j own apart. kept j (rw (v.owned p j own).1 apart)) later
          (Entries-append_right _ reqs ((q, i) ∷ later) there).1
          (append_apart reqs ((q, i) ∷ later) distinct).1,
    )
