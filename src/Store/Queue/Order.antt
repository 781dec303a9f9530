-- ===== src/Store/Queue/Order.antt =====
-- internal/cache/db.go: the queue of pending operations keeps its order.
use rvfs.Base.{
  ℕ, suc, ◌+◌, max, ◌≤◌, Bool, true, false, List, [], ◌∷◌, ◌++◌, none, some, String, ok, ◌≡◌, ◌⊎◌,
  refl, ap, arith, eq_iff, str_eq, leb, ◌==◌, if◌then◌else◌, inl, inr, Bool-cases, Option-cases,
  take, insert_by, sort_by,
}
use rvfs.Store.{PendingOp, MetadataDb, put, op_eq}
use rvfs.Store.Queue.{
  older, is_put_of, find_put, refresh_put, insert_op, queue_put, add_pending_op, next_pending_ops,
  delete_op, complete_pending_op,
}

-- The ids ascend from `lo` on, and all lie below the next id.
abbrev pub AscendsFrom : ℕ → ℕ → List PendingOp → Type 0
AscendsFrom lo next [] = lo ≤ next
AscendsFrom lo next (o ∷ ops) = (lo ≤ o.id) × AscendsFrom (suc o.id) next ops

abbrev pub IsQueue : MetadataDb → Type 0
IsQueue db = AscendsFrom 0 db.next_op db.pending_ops

AscendsFrom-le : (lo next : ℕ) (ops : List PendingOp) → AscendsFrom lo next ops → lo ≤ next
AscendsFrom-le lo next [] a = a
AscendsFrom-le lo next (o ∷ ops) a = omega (arith, a.0, AscendsFrom-le (suc o.id) next ops a.1)

pub AscendsFrom-weaken :
    (lo lo' next : ℕ) (ops : List PendingOp)
    → lo ≤ lo'
    → AscendsFrom lo' next ops
    → AscendsFrom lo next ops
AscendsFrom-weaken lo lo' next [] h a = omega arith
AscendsFrom-weaken lo lo' next (o ∷ ops) h a = (omega (arith, a.0), a.1)

AscendsFrom-append :
    (lo next : ℕ) (ops : List PendingOp) (o : PendingOp)
    → AscendsFrom lo next ops
    → AscendsFrom lo (suc next) (ops ++ (record o { id = next } ∷ []))
AscendsFrom-append lo next [] o a = (a, omega arith)
AscendsFrom-append lo next (p ∷ ops) o a = (a.0, AscendsFrom-append (suc p.id) next ops o a.1)

AscendsFrom-refresh :
    (i at lo next : ℕ) (ops : List PendingOp)
    → AscendsFrom lo next ops
    → AscendsFrom lo next (refresh_put i at ops)
unfolding refresh_put
AscendsFrom-refresh i at lo next [] a = a
AscendsFrom-refresh i at lo next (o ∷ ops) a = elim (Bool-cases (o.id == i)) [
  | inl e ↦ rw e (a.0, AscendsFrom-refresh i at (suc o.id) next ops a.1)
  | inr e ↦ rw e (a.0, AscendsFrom-refresh i at (suc o.id) next ops a.1)
]

AscendsFrom-delete :
    (i lo next : ℕ) (ops : List PendingOp)
    → AscendsFrom lo next ops
    → AscendsFrom lo next (delete_op i ops)
unfolding delete_op
AscendsFrom-delete i lo next [] a = a
AscendsFrom-delete i lo next (o ∷ ops) a = elim (Bool-cases (o.id == i)) [
  | inl e ↦ rw e (
      AscendsFrom-weaken lo (suc o.id) next _ (omega (arith, a.0))
        (AscendsFrom-delete i (suc o.id) next ops a.1))
  | inr e ↦ rw e (a.0, AscendsFrom-delete i (suc o.id) next ops a.1)
]

insert_op-IsQueue : (o : PendingOp) (db : MetadataDb) → IsQueue db → IsQueue (insert_op o db)
unfolding insert_op
insert_op-IsQueue o db a = AscendsFrom-append 0 db.next_op db.pending_ops o a

queue_put-IsQueue : (o : PendingOp) (db : MetadataDb) → IsQueue db → IsQueue (queue_put o db)
unfolding queue_put
queue_put-IsQueue o db a = elim (Option-cases (find_put o.path db.pending_ops)) [
  | inl e ↦ rw (e, queue_put) (insert_op-IsQueue o db a)
  | inr (i, e) ↦ rw (e, queue_put) (AscendsFrom-refresh i o.queued_at 0 db.next_op db.pending_ops a)
]

-- `AddPendingOp` keeps the ids of the queue distinct, ascending and below the next id.
pub add_pending_op-IsQueue :
    (looks writes : Bool) (o : PendingOp) (db : MetadataDb) {db' : MetadataDb}
    → IsQueue db
    → add_pending_op looks writes o db ≡ ok db'
    → IsQueue db'
unfolding add_pending_op
add_pending_op-IsQueue looks writes o db {db'} a h =
    let split : (db' ≡ queue_put o db) ⊎ (db' ≡ insert_op o db) = ground arith in
    elim split [ inl e ↦ rw e (queue_put-IsQueue o db a) | inr e ↦ rw e (insert_op-IsQueue o db a) ]

pub complete_pending_op-IsQueue :
    (runs : Bool) (i : ℕ) (db : MetadataDb) {db' : MetadataDb}
    → IsQueue db
    → complete_pending_op runs i db ≡ ok db'
    → IsQueue db'
unfolding complete_pending_op
complete_pending_op-IsQueue runs i db {db'} a h =
    let e : db' ≡ record db { pending_ops = delete_op i db.pending_ops } = ground arith in
    rw e (AscendsFrom-delete i 0 db.next_op db.pending_ops a)

insert_oldest :
    (o : PendingOp) (next : ℕ) (ops : List PendingOp)
    → AscendsFrom (suc o.id) next ops
    → insert_by older o ops ≡ o ∷ ops
unfolding insert_by
insert_oldest o next [] a = refl
insert_oldest o next (p ∷ ops) a =
    let after : leb p.id o.id ≡ false = ground (arith, a.0) in rw after

sort_ascending :
    (lo next : ℕ) (ops : List PendingOp) → AscendsFrom lo next ops → sort_by older ops ≡ ops
unfolding sort_by
sort_ascending lo next [] a = refl
sort_ascending lo next (o ∷ ops) a =
    rw (sort_ascending (suc o.id) next ops a.1) (insert_oldest o next ops a.1)

-- `NextPendingOps(limit)` returns the operations in the order in which they were queued, the
-- oldest `limit` of them.
pub next_pending_ops_fifo :
    (limit : ℕ) (db : MetadataDb)
    → IsQueue db
    → next_pending_ops true limit db ≡ ok (take limit db.pending_ops)
unfolding next_pending_ops
next_pending_ops_fifo limit db a =
    ap (λ (ops : List PendingOp). ok (take limit ops))
      (sort_ascending 0 db.next_op db.pending_ops a)

-- The number of puts that are queued for a path.
unfoldable pub puts : String → List PendingOp → ℕ
puts p [] = 0
puts p (o ∷ ops) = let rest = puts p ops in if is_put_of p o then suc rest else rest

pub puts-append :
    (q : String) (ops : List PendingOp) (o : PendingOp)
    → puts q (ops ++ (o ∷ [])) ≡ puts q ops + (if is_put_of q o then 1 else 0)
unfolding puts
puts-append q [] o = ground arith
puts-append q (p ∷ ops) o = ground (arith, puts-append q ops o)

puts-refresh :
    (q : String) (i at : ℕ) (ops : List PendingOp) → puts q (refresh_put i at ops) ≡ puts q ops
unfolding puts refresh_put is_put_of
puts-refresh q i at [] = refl
puts-refresh q i at (o ∷ ops) = ground (arith, puts-refresh q i at ops)

find_put-none : (q : String) (ops : List PendingOp) → find_put q ops ≡ none → puts q ops ≡ 0
unfolding puts find_put
find_put-none q [] h = refl
find_put-none q (o ∷ ops) h = ground (arith, find_put-none q ops)

find_put-some :
    (q : String) (ops : List PendingOp) (i : ℕ) → find_put q ops ≡ some i → 1 ≤ puts q ops
unfolding puts find_put
find_put-some q [] i h = cc
find_put-some q (o ∷ ops) i h = elim (Bool-cases (is_put_of q o)) [
  | inl e ↦ rw e (omega arith)
  | inr e ↦ rw e (find_put-some q ops i (rw (e, find_put) at h))
]

pub puts-queue_put :
    (o : PendingOp) (db : MetadataDb) (q : String)
    → op_eq o.op put ≡ true
    → puts q (queue_put o db).pending_ops
      ≡ (if str_eq o.path q then max 1 (puts q db.pending_ops) else puts q db.pending_ops)
unfolding queue_put insert_op is_put_of
puts-queue_put o db q h = elim (Option-cases (find_put o.path db.pending_ops)) [
  | inl e ↦
      rw (e, queue_put)
        (ground (
          arith,
          eq_iff o.path q,
          puts-append q db.pending_ops (record o { id = db.next_op }),
          find_put-none o.path db.pending_ops e,
        ))
  | inr (i, e) ↦
      rw (e, queue_put)
        (ground (
          arith,
          eq_iff o.path q,
          puts-refresh q i o.queued_at db.pending_ops,
          find_put-some o.path db.pending_ops i e,
        ))
]

-- Puts are coalesced: after `AddPendingOp` of a put its path has at least one queued put, and one
-- more than before only if there was none; the puts of other paths are as many as before.
puts-add_pending_op :
    (looks writes : Bool) (o : PendingOp) (q : String) (db : MetadataDb) {db' : MetadataDb}
    → op_eq o.op put ≡ true
    → add_pending_op looks writes o db ≡ ok db'
    → puts q db'.pending_ops
      ≡ (if str_eq o.path q then max 1 (puts q db.pending_ops) else puts q db.pending_ops)
unfolding add_pending_op
puts-add_pending_op looks writes o q db {db'} p h =
    let same : db' ≡ queue_put o db = ground arith in rw same (puts-queue_put o db q p)
