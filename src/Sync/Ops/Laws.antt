-- ===== src/Sync/Ops/Laws.antt =====
-- internal/sync/engine.go: the order in which pending operations are sent, and what stays queued.
use rvfs.Base.{
  ℕ, zero, suc, ◌≤◌, ◌<◌, Bool, true, false, List, [], ◌∷◌, ◌++◌, none, some, ◌≡◌, refl, sym, ◌∙◌,
  ap, arith, ◌==◌, if◌then◌else◌, inl, inr, Bool-cases, Option-cases, take, drop, subst,
}
use mathlib.Core.List.{append-nil, append_assoc}
use rvfs.Store.{PendingOp, MetadataDb}
use rvfs.Store.Queue.{delete_op, complete_pending_op}
use rvfs.Store.Queue.Order.{AscendsFrom, AscendsFrom-weaken, IsQueue, next_pending_ops_fifo}
use rvfs.Sync.{RemoteCall, Answers, SyncState}
use rvfs.Sync.Ops.{call_of, complete, process_op, process_each, process_pending_ops}

-- The calls of some operations, in their order.
unfoldable pub calls_of : List PendingOp → List RemoteCall
calls_of [] = []
calls_of (o ∷ os) = elim (call_of o.op o) [ none ↦ calls_of os | some call ↦ call ∷ calls_of os ]

-- Whether the round of an operation takes it off the queue.
unfoldable pub is_done : Answers → PendingOp → Bool
is_done a o = elim (call_of o.op o) [ none ↦ true | some call ↦ a.accepts call ]

-- The operations that the remote refuses.
unfoldable pub refused : Answers → List PendingOp → List PendingOp
refused a [] = []
refused a (o ∷ os) = if is_done a o then refused a os else o ∷ refused a os

process_op_sent :
    (a : Answers) (o : PendingOp) (s : SyncState)
    → (process_op a o s).sent ≡ s.sent ++ calls_of (o ∷ [])
unfolding process_op complete calls_of
process_op_sent a o s = elim (Option-cases (call_of o.op o)) [
  | inl e ↦ rw (e, process_op, calls_of) (sym (append-nil s.sent))
  | inr (call, e) ↦ elim (Bool-cases (a.accepts call)) [
    | inl y ↦ rw (e, y, process_op, calls_of) refl
    | inr n ↦ rw (e, n, process_op, calls_of) refl
  ]
]

calls_of_cons :
    (o : PendingOp) (os : List PendingOp) → calls_of (o ∷ os) ≡ calls_of (o ∷ []) ++ calls_of os
unfolding calls_of
calls_of_cons o os = elim (Option-cases (call_of o.op o)) [
  | inl e ↦ rw (e, calls_of) refl
  | inr (call, e) ↦ rw (e, calls_of) refl
]

process_each_sent :
    (a : Answers) (os : List PendingOp) (s : SyncState)
    → (process_each a os s).sent ≡ s.sent ++ calls_of os
unfolding process_each calls_of
process_each_sent a [] s = sym (append-nil s.sent)
process_each_sent a (o ∷ os) s =
    process_each_sent a os (process_op a o s)
    ∙ ap (λ (l : List RemoteCall). l ++ calls_of os) (process_op_sent a o s)
    ∙ append_assoc s.sent (calls_of (o ∷ [])) (calls_of os)
    ∙ ap (λ (l : List RemoteCall). s.sent ++ l) (sym (calls_of_cons o os))

-- `processPendingOps` sends the calls of the ten oldest operations, in the order in which they
-- were queued, and no others; puts have no call.
process_pending_ops_sent :
    (a : Answers) (s : SyncState)
    → IsQueue s.cache.db
    → (process_pending_ops true a s).sent ≡ s.sent ++ calls_of (take 10 s.cache.db.pending_ops)
unfolding process_pending_ops
process_pending_ops_sent a s q =
    rw (next_pending_ops_fifo 10 s.cache.db q)
      (process_each_sent a (take 10 s.cache.db.pending_ops) s)

delete_below :
    (i lo next : ℕ) (ops : List PendingOp)
    → i < lo
    → AscendsFrom lo next ops
    → delete_op i ops ≡ ops
unfolding delete_op
delete_below i lo next [] h q = refl
delete_below i lo next (o ∷ ops) h q =
    let other : (o.id == i) ≡ false = ground (arith, q.0) in
    rw (other, delete_below i (suc o.id) next ops (omega (arith, q.0)) q.1)

delete_middle :
    (lo next : ℕ) (front : List PendingOp) (o : PendingOp) (back : List PendingOp)
    → AscendsFrom lo next (front ++ (o ∷ back))
    → delete_op o.id (front ++ (o ∷ back)) ≡ front ++ back
unfolding delete_op
delete_middle lo next [] o back q =
    let same : (o.id == o.id) ≡ true = ground arith in
    rw (same, delete_below o.id (suc o.id) next back (omega arith) q.1)
delete_middle lo next (p ∷ front) o back q =
    let other : (p.id == o.id) ≡ false = ground (arith, above (suc p.id) next front o back q.1) in
    rw (other, delete_middle (suc p.id) next front o back q.1)
  where
    above :
        (lo next : ℕ) (front : List PendingOp) (o : PendingOp) (back : List PendingOp)
        → AscendsFrom lo next (front ++ (o ∷ back))
        → lo ≤ o.id
    above lo next [] o back q = q.0
    above lo next (p ∷ front) o back q = omega (arith, q.0, above (suc p.id) next front o back q.1)

AscendsFrom-middle :
    (lo next : ℕ) (front : List PendingOp) (o : PendingOp) (back : List PendingOp)
    → AscendsFrom lo next (front ++ (o ∷ back))
    → AscendsFrom lo next (front ++ back)
AscendsFrom-middle lo next [] o back q =
    AscendsFrom-weaken lo (suc o.id) next back (omega (arith, q.0)) q.1
AscendsFrom-middle lo next (p ∷ front) o back q =
    (q.0, AscendsFrom-middle (suc p.id) next front o back q.1)

round_done :
    (a : Answers) (o : PendingOp) (s : SyncState)
    → a.completes o.id ≡ true
    → is_done a o ≡ true
    → (process_op a o s).cache.db
      ≡ record (s.cache.db) { pending_ops = delete_op o.id s.cache.db.pending_ops }
unfolding process_op complete complete_pending_op is_done
round_done a o s c d = elim (Option-cases (call_of o.op o)) [
  | inl e ↦ rw (e, c, process_op) refl
  | inr (call, e) ↦ let y : a.accepts call ≡ true = ground arith in rw (e, y, c, process_op) refl
]

round_refused :
    (a : Answers) (o : PendingOp) (s : SyncState)
    → is_done a o ≡ false
    → (process_op a o s).cache.db ≡ s.cache.db
unfolding process_op is_done
round_refused a o s d = elim (Option-cases (call_of o.op o)) [
  | inl e ↦ absurd (ground arith)
  | inr (call, e) ↦ let y : a.accepts call ≡ false = ground arith in rw (e, y, process_op) refl
]

process_each_queue :
    (a : Answers) (kept os back : List PendingOp) (next : ℕ) (s : SyncState)
    → ((i : ℕ) → a.completes i ≡ true)
    → s.cache.db.pending_ops ≡ kept ++ (os ++ back)
    → AscendsFrom 0 next (kept ++ (os ++ back))
    → (process_each a os s).cache.db.pending_ops ≡ kept ++ (refused a os ++ back)
unfolding process_each refused
process_each_queue a kept [] back next s c e q = e
process_each_queue a kept (o ∷ os) back next s c e q = elim (Bool-cases (is_done a o)) [
  | inl d ↦
      rw (d, refused)
        (process_each_queue a kept os back next (process_op a o s) c
          (ap (λ (db : MetadataDb). db.pending_ops) (round_done a o s (c o.id) d)
            ∙ ap (delete_op o.id) e
            ∙ delete_middle 0 next kept o (os ++ back) q)
          (AscendsFrom-middle 0 next kept o (os ++ back) q))
  | inr d ↦
      let shift : kept ++ (o ∷ (os ++ back)) ≡ (kept ++ (o ∷ [])) ++ (os ++ back) =
        sym (append_assoc kept (o ∷ []) (os ++ back)) in
      rw (d, refused)
        (process_each_queue a (kept ++ (o ∷ [])) os back next (process_op a o s) c
            (ap (λ (db : MetadataDb). db.pending_ops) (round_refused a o s d) ∙ e ∙ shift)
            (subst (AscendsFrom 0 next) shift q)
          ∙ append_assoc kept (o ∷ []) (refused a os ++ back))
]

take-append-drop : (n : ℕ) (ops : List PendingOp) → ops ≡ take n ops ++ drop n ops
take-append-drop zero ops = refl
take-append-drop (suc n) [] = refl
take-append-drop (suc n) (o ∷ ops) = ap (◌∷◌ o) (take-append-drop n ops)

-- If the driver runs every statement, what is left in the queue after `processPendingOps` are, in
-- their order, the operations among the ten oldest that the remote refused, unchanged and with
-- their count of attempts as before, and then all that stood behind the ten.
pub process_pending_ops_queue :
    (a : Answers) (s : SyncState)
    → IsQueue s.cache.db
    → ((i : ℕ) → a.completes i ≡ true)
    → (process_pending_ops true a s).cache.db.pending_ops
      ≡ refused a (take 10 s.cache.db.pending_ops) ++ drop 10 s.cache.db.pending_ops
unfolding process_pending_ops
process_pending_ops_queue a s q c =
    let ops = s.cache.db.pending_ops in
    let split = take-append-drop 10 ops in
    rw (next_pending_ops_fifo 10 s.cache.db q) (
      process_each_queue a [] (take 10 ops) (drop 10 ops) s.cache.db.next_op s c split
        (subst (AscendsFrom 0 s.cache.db.next_op) split q))
