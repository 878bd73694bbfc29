-- ===== src/Pipe/Waiting.antt =====
-- A client of library/pipe.c that waits for a transaction, when the connection is lost.
use twopence.Prelude.{
  ℕ, ◌≡◌, ◌≢◌, ap, ◌∙◌, Bool, true, false, none, some, List, [], ◌∷◌, ◌++◌, ◌==◌, if◌then◌else◌,
  arith,
}
use twopence.Transaction.{Trans}
use twopence.Connection.{find_transaction}
use twopence.Connection.Link.{Link, reap_transaction, cancel_transactions}
use twopence.Connection.Doio.{transport_error}
use twopence.Connection.Cancel.{Cancelled, HasFailed, cancel_transactions-Cancelled}
use twopence.Pipe.{Pipe, ok, failed}
use twopence.Pipe.Run.{
  World, Status, Ended, waiting, abort, ended, run, turn, after, reaped, pipe_doio, finish,
  status_of, result_of, cancelled, cancelled_link,
}

-- The transaction is not finished.
pub record IsWaiting (pipe : Pipe) (xid : ℕ) : Type 0 where
  pub link : Link
  pub connected : pipe.connection ≡ some link
  pub unfinished : reap_transaction link xid ≡ none

-- A sequence of polls that succeed, before each of which the transaction is not finished.
pub data Waits (xid : ℕ) : List World → Pipe → Pipe → Type 0 where
  stays : {pipe pipe' : Pipe} → pipe ≡ pipe' → Waits xid [] pipe pipe'
  polls :
      {w : World} {ws : List World} {pipe next pipe' : Pipe}
      → IsWaiting pipe xid
      → pipe_doio w pipe ≡ some (true, next)
      → Waits xid ws next pipe'
      → Waits xid (w ∷ ws) pipe pipe'

run-step :
    (w : World) (ws : List World) (pipe : Pipe) (xid : ℕ) (status : Status) (r : Bool × Pipe)
    → IsWaiting pipe xid
    → pipe_doio w pipe ≡ some r
    → run (w ∷ ws) pipe xid status ≡ run ws (after r) xid status
unfolding run
run-step w ws pipe xid status r k e =
    let rest = elim (pipe_doio w pipe) as (λ o. Ended) [
      | none ↦ abort
      | some r ↦ run ws (after r) xid status
    ] in
    ap (λ c. turn c (reaped c xid) pipe status rest) (k.connected)
    ∙ ap (λ o. turn (some k.link) o pipe status rest) (k.unfinished)
    ∙ ap (λ o. elim o as (λ o. Ended) [ none ↦ abort | some r ↦ run ws (after r) xid status ]) e

run-Waits :
    (ws rest : List World) (pipe pipe' : Pipe) (xid : ℕ) (status : Status)
    → Waits xid ws pipe pipe'
    → run (ws ++ rest) pipe xid status ≡ run rest pipe' xid status
run-Waits [] rest pipe pipe' xid status (stays e) = ap (λ p. run rest p xid status) e
run-Waits (w ∷ ws) rest pipe pipe' xid status (polls {next = next} k e more) =
    run-step w (ws ++ rest) pipe xid status (true, next) k e
    ∙ run-Waits ws rest next pipe' xid status more

-- A transaction of that id that failed is reaped at once.
run-reaped :
    (ws : List World) (pipe : Pipe) (xid : ℕ) (status : Status) (link left : Link) (trans : Trans)
    → pipe.connection ≡ some link
    → reap_transaction link xid ≡ some (trans, left)
    → run ws pipe xid status ≡ finish pipe (trans, left)
unfolding run
run-reaped [] pipe xid status link left trans c e =
    ap (λ c. turn c (reaped c xid) pipe status (waiting pipe)) c
    ∙ ap (λ o. turn (some link) o pipe status (waiting pipe)) e
run-reaped (w ∷ ws) pipe xid status link left trans c e =
    let rest = elim (pipe_doio w pipe) as (λ o. Ended) [
      | none ↦ abort
      | some r ↦ run ws (after r) xid status
    ] in
    ap (λ c. turn c (reaped c xid) pipe status rest) c
    ∙ ap (λ o. turn (some link) o pipe status rest) e

-- The result of a transaction that failed.
failed_result :
    (error xid : ℕ) (trans : Trans)
    → error ≢ 0
    → HasFailed error xid trans
    → result_of trans ≡ failed error
failed_result error xid trans ne f =
    let z : (trans.exception == 0) ≡ false = ground (arith, ne, f.exception) in
    ap (λ b. if b then ok 0 else failed trans.exception) z ∙ ap failed (f.exception)

-- A client that waits for a transaction is not left behind when the connection is lost: after any
-- number of polls that succeed before the transaction is finished, if a poll finds the connection
-- closed and the transaction is still pending on it, the wait ends with the transport error and
-- the id of the transaction.
pub run_lost :
    (ws rest : List World) (w : World) (pipe pipe' lost : Pipe) (link : Link) (xid : ℕ)
    (status : Status) (t : Trans)
    → Waits xid ws pipe pipe'
    → IsWaiting pipe' xid
    → pipe_doio w pipe' ≡ some (false, lost)
    → lost.connection ≡ some link
    → link.keeps_done ≡ true
    → xid ≢ 0
    → find_transaction link.conn.transactions xid ≡ some t
    → (status' : Status) × (left : Pipe) × (run (ws ++ w ∷ rest) pipe xid status
        ≡ ended (failed transport_error) status' left)
      × (status'.pid ≡ xid)
run_lost ws rest w pipe pipe' lost link xid status t waits k e connected keeps ne found =
    let c : Cancelled transport_error xid (cancel_transactions link transport_error) =
      cancel_transactions-Cancelled link transport_error xid t keeps ne found in
    let left = record lost { connection = some c.left } in
    (
      status_of c.trans,
      left,
      run-Waits ws (w ∷ rest) pipe pipe' xid status waits
          ∙ run-step w rest pipe' xid status (false, lost) k e
          ∙ run-reaped rest (cancelled lost transport_error) xid status
              (cancel_transactions link transport_error) c.left c.trans
              (ap (λ o. cancelled_link o transport_error) connected) c.reaped
          ∙ ap (λ r. ended r (status_of c.trans) left)
              (failed_result transport_error xid c.trans (omega arith) c.failed),
      c.failed.same_id,
    )
