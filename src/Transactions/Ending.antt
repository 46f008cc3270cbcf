-- ===== src/Transactions/Ending.antt =====
-- Sequences of calls that end a transaction.
use python_thin_client.Prelude.{
  ℕ, ◌≡◌, refl, ap, ◌∙◌, Bool, true, false, Option, none, some, List, [], ◌∷◌, ◌++◌, ◌==◌, length,
  replicate, ==_iff,
}
use python_thin_client.Prelude.Dict.{lookup, insert, lookup-insert, nat_key}
use python_thin_client.Transactions.{
  Reply, Ended, returned, cache_error, World, get_tx_id, in_context, ended, tx_end, Transaction,
  start, finish, Call, commits, rolls_back, closes, exits, call, commit, rollback, close,
}

-- A call, the context that makes it, and what its request comes to if it sends one.
abbrev pub Step : Type 0
Step = Call × ℕ × Reply

-- The calls on a transaction one after the other: what each comes to, and the world afterwards.
unfoldable pub run : List Step → Transaction → World → List Ended × World
run [] tx w = ([], w)
run ((c, context, reply) ∷ steps) tx w =
    let (result, after) = call c context reply tx w in
    let (results, w') = run steps after.0 after.1 in (result ∷ results, w')

abbrev pub is_commit : Call → Bool
is_commit commits = true
is_commit rolls_back = false
is_commit closes = false
is_commit exits = false

call_lem :
    (c : Call) (context : ℕ) (reply : Reply) (tx : Transaction) (w : World)
    → call c context reply tx w ≡ finish (is_commit c) context reply tx w
unfolding call commit rollback close
call_lem commits context reply tx w = refl
call_lem rolls_back context reply tx w = refl
call_lem closes context reply tx w = refl
call_lem exits context reply tx w = refl

-- On a closed transaction every call returns and does nothing.
run_closed :
    (steps : List Step) (tx_id : ℕ) (w : World)
    → run steps (record { tx_id = tx_id; is_closed = true }) w
      ≡ (replicate (length steps) returned, w)
unfolding run finish
run_closed [] tx_id w = refl
run_closed ((c, context, reply) ∷ steps) tx_id w =
    rw
      (
        call_lem c context reply (record { tx_id = tx_id; is_closed = true }) w,
        run_closed steps tx_id w,
      )
      refl

abbrev follow : List Step → Ended × (Transaction × World) → List Ended × World
follow steps o = let (results, w') = run steps o.1.0 o.1.1 in (o.0 ∷ results, w')

-- What the first call on an open transaction comes to is what the request to end it comes to.
run_first :
    (c : Call) (context : ℕ) (reply : Reply) (steps : List Step) (tx_id : ℕ) (w : World)
    {result : Ended} {w' : World}
    → tx_end context tx_id (is_commit c) reply w ≡ (result, w')
    → run ((c, context, reply) ∷ steps) (record { tx_id = tx_id; is_closed = false }) w
      ≡ (result ∷ replicate (length steps) returned, w')
unfolding run finish
run_first c context reply steps tx_id w {result} {w'} e =
    ap (follow steps) (
      call_lem c context reply (record { tx_id = tx_id; is_closed = false }) w
      ∙ ap (λ (r : Ended × World). (r.0, (record { tx_id = tx_id; is_closed = true }, r.1))) e)
    ∙ ap (λ (r : List Ended × World). (result ∷ r.0, r.1)) (run_closed steps tx_id w')

-- The first call on an open transaction decides: in the context that holds the transaction, it sends
-- one request, to commit exactly if it is `commit`, and clears the context; every later call, from
-- any context, returns and sends nothing.
pub run_once :
    (c : Call) (context : ℕ) (reply : Reply) (steps : List Step) (tx_id : ℕ) (w : World)
    → get_tx_id context w ≡ some tx_id
    → run ((c, context, reply) ∷ steps) (record { tx_id = tx_id; is_closed = false }) w ≡ (
      ended reply ∷ replicate (length steps) returned,
      record {
        current_tx = insert context none w.current_tx;
        sent = w.sent ++ ((tx_id, is_commit c) ∷ []);
      },
    )
run_once c context reply steps tx_id w here =
    run_first c context reply steps tx_id w (unfold tx_end in rw here (rw (own tx_id) refl))
  where
    own : (n : ℕ) → in_context n (some n) ≡ true
    own n = unfold in_context in (==_iff n n).1 refl

get_tx_id_lem :
    (context : ℕ) (w : World) {tx : Option ℕ}
    → lookup context w.current_tx ≡ some tx
    → get_tx_id context w ≡ tx
unfolding get_tx_id
get_tx_id_lem context w e = ap (λ (o : Option (Option ℕ)). elim o [ some tx ↦ tx | none ↦ none ]) e

tx_end_other :
    (context tx_id : ℕ) (committed : Bool) (reply : Reply) (other : ℕ) (w : World)
    → get_tx_id context w ≡ some other
    → (other == tx_id) ≡ false
    → tx_end context tx_id committed reply w ≡ (cache_error, w)
unfolding tx_end
tx_end_other context tx_id committed reply other w held differ =
    let apart : in_context tx_id (some other) ≡ false = unfold in_context in differ in
    rw held (rw apart refl)

-- If a second transaction was started in the context of the first, the next call on the first
-- raises, and neither that call nor any later one ever sends a request to end it.
pub run_superseded :
    (c : Call) (context : ℕ) (reply : Reply) (steps : List Step) (tx_id other : ℕ) (w : World)
    → (other == tx_id) ≡ false
    → run
        ((c, context, reply) ∷ steps)
        (start context tx_id w).0
        (start context other (start context tx_id w).1).1
      ≡ (
        cache_error ∷ replicate (length steps) returned,
        (start context other (start context tx_id w).1).1,
      )
unfolding start
run_superseded c context reply steps tx_id other w differ =
    let first = insert context (some tx_id) w.current_tx in
    let held : lookup context (insert context (some other) first) ≡ some (some other) =
      lookup-insert context context (some other) first
      ∙ rw ((==_iff context context).1 refl) refl in
    run_first c context reply steps tx_id
      (record w { current_tx = insert context (some other) first })
      (tx_end_other context tx_id (is_commit c) reply other _ (get_tx_id_lem context _ held) differ)
