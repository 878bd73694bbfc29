-- ===== src/Connection/Cancel.antt =====
-- Cancelling the transactions of a connection of library/connection.c, and reaping the finished ones.
use twopence.Prelude.{
  ℕ, ◌≡◌, ◌≢◌, refl, sym, ◌∙◌, subst, true, false, ◌||◌, Option, some, List, [], ◌∷◌, arith,
  Bool-cases, inl, inr, ==→eq, ==→ne, ◌==◌,
}
use twopence.Transaction.{Trans, set_error}
use twopence.Connection.{find_transaction}
use twopence.Connection.Round.{find-cons_miss}
use twopence.Connection.Link.{
  Link, reap_list, reap_transaction, cancel_list, cancel_transactions, behind,
}

-- A transaction that failed with an error.
pub record HasFailed (error xid : ℕ) (trans : Trans) : Type 0 where
  pub is_done : trans.done ≡ true
  pub exception : trans.exception ≡ error
  pub same_id : trans.id ≡ xid

-- On the list there is a transaction of that id that failed, and the first of that id did.
pub data Reaps (error xid : ℕ) : Option (Trans × List Trans) → Type 0 where
  reaps :
      (trans : Trans) (left : List Trans)
      → HasFailed error xid trans
      → Reaps error xid (some (trans, left))

behind-Reaps :
    (error xid : ℕ) (rover : Trans) {o : Option (Trans × List Trans)}
    → Reaps error xid o
    → Reaps error xid (behind rover o)
behind-Reaps error xid rover (reaps trans left f) = reaps trans (rover ∷ left) f

reap-cons :
    (error xid : ℕ) (trans : Trans) (list : List Trans)
    → (trans.id ≡ xid → HasFailed error xid trans)
    → (trans.id ≢ xid → Reaps error xid (reap_list list xid))
    → xid ≢ 0
    → Reaps error xid (reap_list (trans ∷ list) xid)
unfolding reap_list
reap-cons error xid trans list here later ne = elim (Bool-cases (trans.id == xid)) [
  | inl same ↦
      let t : (xid == 0 || trans.id == xid) ≡ true = ground (arith, same, ne) in
      rw t (reaps trans list (here (==→eq trans.id xid same)))
  | inr other ↦
      let t : (xid == 0 || trans.id == xid) ≡ false = ground (arith, other, ne) in
      rw t (behind-Reaps error xid trans (later (==→ne trans.id xid other)))
]

cancel_list-Reaps :
    (error xid : ℕ) (list finished : List Trans)
    → xid ≢ 0
    → Reaps error xid (reap_list finished xid)
    → Reaps error xid (reap_list (cancel_list true error list finished) xid)
unfolding cancel_list set_error
cancel_list-Reaps error xid [] finished ne r = r
cancel_list-Reaps error xid (trans ∷ rest) finished ne r = cancel_list-Reaps error xid rest _ ne (
    reap-cons error xid _ finished (λ e. record { is_done = refl; exception = refl; same_id = e })
      (λ _. r) ne)

-- The first transaction of that id is cancelled, and then reaped.
cancel_list-found :
    (error xid : ℕ) (list finished : List Trans) (t : Trans)
    → xid ≢ 0
    → find_transaction list xid ≡ some t
    → Reaps error xid (reap_list (cancel_list true error list finished) xid)
unfolding cancel_list find_transaction set_error
cancel_list-found error xid [] finished t ne e = absurd (cc e)
cancel_list-found error xid (x ∷ rest) finished t ne e = elim (Bool-cases (x.id == xid)) [
  | inl same ↦ cancel_list-Reaps error xid rest _ ne (
      reap-cons error xid _ finished (λ i. record { is_done = refl; exception = refl; same_id = i })
        (λ other. absurd (other (==→eq x.id xid same))) ne)
  | inr other ↦ cancel_list-found error xid rest _ t ne (sym (find-cons_miss x rest xid other) ∙ e)
]

-- What is reaped is a failed transaction of that id, and no transaction is pending.
pub record Cancelled (error xid : ℕ) (link : Link) : Type 0 where
  pub none_pending : link.conn.transactions ≡ []
  pub trans : Trans
  pub left : Link
  pub reaped : reap_transaction link xid ≡ some (trans, left)
  pub failed : HasFailed error xid trans

reap_lem :
    (error xid : ℕ) (link : Link) (o : Option (Trans × List Trans))
    → reap_list link.done_transactions xid ≡ o
    → Reaps error xid o
    → link.conn.transactions ≡ []
    → Cancelled error xid link
unfolding reap_transaction
reap_lem error xid link o e (reaps trans left f) none_pending = record {
  none_pending = none_pending;
  trans = trans;
  left = record link { done_transactions = left };
  reaped = rw (e, reap_transaction) refl;
  failed = f;
}

-- Where finished transactions are kept, a cancelled connection lets its waiters go on: no
-- transaction is pending, and for each id other than 0 that a pending transaction had,
-- reap_transaction returns a transaction of that id that is done, with the error given.
pub cancel_transactions-Cancelled :
    (link : Link) (error xid : ℕ) (t : Trans)
    → link.keeps_done ≡ true
    → xid ≢ 0
    → find_transaction link.conn.transactions xid ≡ some t
    → Cancelled error xid (cancel_transactions link error)
unfolding cancel_transactions
cancel_transactions-Cancelled link error xid t keeps ne e =
    reap_lem error xid (cancel_transactions link error) _ refl
      (subst
        (λ b.
          Reaps error xid
            (reap_list (cancel_list b error link.conn.transactions link.done_transactions) xid))
        (sym keeps)
        (cancel_list-found error xid link.conn.transactions link.done_transactions t ne e))
      refl
