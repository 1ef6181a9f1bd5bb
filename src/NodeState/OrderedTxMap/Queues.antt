-- ===== src/NodeState/OrderedTxMap/Queues.antt =====
-- What the loops of `add` and `remove` do to the queue of each contract.
use hyle.Prelude.{
  ◌≡◌, ◌≢◌, refl, Bool, false, ◌&&◌, Option, none, some, List, [], ◌∷◌, ◌++◌, arith, if◌then◌else◌,
  length-append, all, is_empty,
}
use hyle.Prelude.Key.{◌==◌, key_refl, key_eq, string_key}
use hyle.Prelude.Map.{lookup, get_or, lookup-insert, lookup-remove}
use hyle.Prelude.Sets.{mem, set_remove, Distinct}
use hyle.Model.{ContractName, TxHash}
use hyle.NodeState.OrderedTxMap.{TxOrder, push_back, push_all, retain_others, retain_all}

-- The queue of a contract, empty where there is none.
abbrev pub queue : TxOrder → ContractName → List TxHash
queue order n = get_or n order []

-- No entry for an empty queue.
abbrev pub entry : List TxHash → Option (List TxHash)
entry [] = none
entry (h ∷ q) = some (h ∷ q)

pub lookup-push_back :
    (h : TxHash) (order : TxOrder) (c n : ContractName)
    → lookup n (push_back h order c).0
      ≡ (if c == n then some (queue order n ++ h ∷ []) else lookup n order)
unfolding push_back
lookup-push_back h order c n = ground (
  arith,
  lookup-insert c n (queue order c ++ h ∷ []) order,
  lookup-insert c n (h ∷ []) order,
  key_eq c n,
)

pub lookup-push_all :
    (h : TxHash) (order : TxOrder) (b : Bool) (cs : List ContractName) (n : ContractName)
    → Distinct cs
    → lookup n (push_all h order b cs).0
      ≡ (if mem n cs then some (queue order n ++ h ∷ []) else lookup n order)
unfolding push_all mem
lookup-push_all h order b [] n d = refl
lookup-push_all h order b (c ∷ cs) n d = ground (
  arith,
  lookup-push_all h (push_back h order c).0 ((push_back h order c).1 && b) cs n,
  lookup-push_back h order c n,
  key_eq c n,
)

alone-push_back :
    (h : TxHash) (order : TxOrder) (c : ContractName)
    → (push_back h order c).1 ≡ is_empty (queue order c)
unfolding push_back
alone-push_back h order c = ground (arith, length-append (queue order c) (h ∷ []))

all-is_empty-push_back :
    (h : TxHash) (order : TxOrder) (c : ContractName) (cs : List ContractName)
    → mem c cs ≡ false
    → all (λ n. is_empty (queue (push_back h order c).0 n)) cs
      ≡ all (λ n. is_empty (queue order n)) cs
unfolding mem
all-is_empty-push_back h order c [] m = refl
all-is_empty-push_back h order c (n ∷ cs) m = ground (
  arith,
  all-is_empty-push_back h order c cs,
  lookup-push_back h order c n,
  key_eq c n,
  key_refl n,
)

-- The flag of `add`: all the queues were empty.
pub alone-push_all :
    (h : TxHash) (order : TxOrder) (b : Bool) (cs : List ContractName)
    → Distinct cs
    → (push_all h order b cs).1 ≡ (b && all (λ n. is_empty (queue order n)) cs)
unfolding push_all
alone-push_all h order b [] d = ground arith
alone-push_all h order b (c ∷ cs) d = ground (
  arith,
  alone-push_all h (push_back h order c).0 ((push_back h order c).1 && b) cs,
  alone-push_back h order c,
  all-is_empty-push_back h order c cs,
)

pub lookup-retain_others :
    (h : TxHash) (order : TxOrder) (c n : ContractName)
    → lookup n order ≢ some []
    → lookup n (retain_others h order c)
      ≡ (if c == n then entry (set_remove h (queue order n)) else lookup n order)
unfolding retain_others set_remove
lookup-retain_others h order c n e = ground (
  arith,
  lookup-insert c n (set_remove h (queue order c)) order,
  lookup-remove c n order,
  key_eq c n,
)

pub lookup-retain_all :
    (h : TxHash) (order : TxOrder) (cs : List ContractName) (n : ContractName)
    → Distinct cs
    → lookup n order ≢ some []
    → lookup n (retain_all h order cs)
      ≡ (if mem n cs then entry (set_remove h (queue order n)) else lookup n order)
unfolding retain_all mem
lookup-retain_all h order [] n d e = refl
lookup-retain_all h order (c ∷ cs) n d e = ground (
  arith,
  lookup-retain_all h (retain_others h order c) cs n,
  lookup-retain_others h order c n,
  key_eq c n,
)
