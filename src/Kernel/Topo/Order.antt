-- ===== src/Kernel/Topo/Order.antt =====
-- kernel/executor.py: what `_topo_layers` counts. The degree of a node is the number of the edges
-- into it whose source is not yet in the order.
use brain_flow.Prelude.{
  ℕ, suc, ◌+◌, ◌≤◌, String, ◌≡◌, refl, Bool, true, false, ◌&&◌, List, [], ◌∷◌, ◌++◌, length, All,
  arith, str_eq, eq_iff, eq_refl, if◌then◌else◌, ◌==◌,
}
use brain_flow.Kernel.Workflow.{Edge}
use brain_flow.Kernel.Topo.{from_id, to_id}

-- How often an id stands in a list.
unfoldable pub count : String → List String → ℕ
count v [] = 0
count v (x ∷ xs) = (if str_eq x v then 1 else 0) + count v xs

pub count-append : (v : String) (xs ys : List String) → count v (xs ++ ys) ≡ count v xs + count v ys
unfolding count
count-append v [] ys = omega arith
count-append v (x ∷ xs) ys = omega (arith, count-append v xs ys)

-- The edges between declared nodes.
unfoldable pub links : (String → Bool) → List Edge → List Edge
links known [] = []
links known (e ∷ es) =
    if known (from_id e) && known (to_id e) then e ∷ links known es else links known es

-- The edges into `v` whose source is not in `done`.
unfoldable pub incoming : List Edge → List String → String → ℕ
incoming [] done v = 0
incoming (e ∷ es) done v =
    (if str_eq (to_id e) v && count (from_id e) done == 0 then 1 else 0) + incoming es done v

-- The edges from `u` to `v`.
unfoldable pub between : List Edge → String → String → ℕ
between [] u v = 0
between (e ∷ es) u v =
    (if str_eq (from_id e) u && str_eq (to_id e) v then 1 else 0) + between es u v

-- A node that joins the order takes its edges off the degrees.
pub incoming-append :
    (es : List Edge) (done : List String) (u v : String)
    → count u done ≡ 0
    → incoming es (done ++ u ∷ []) v + between es u v ≡ incoming es done v
unfolding incoming between count
incoming-append [] done u v h = omega arith
incoming-append (e ∷ es) done u v h = ground (
  arith,
  incoming-append es done u v,
  count-append (from_id e) done (u ∷ []),
  eq_iff (from_id e) u,
  eq_iff u (from_id e),
)

-- Where no edge into `v` is left, its sources are all in the order.
pub incoming-zero :
    (es : List Edge) (done : List String) (v : String)
    → All (λ e. to_id e ≡ v → 1 ≤ count (from_id e) done) es
    → incoming es done v ≡ 0
unfolding incoming
incoming-zero [] done v h = refl
incoming-zero (e ∷ es) done v (p, h) =
    ground (arith, incoming-zero es done v h, eq_iff (to_id e) v, p)

pub zero-incoming :
    (es : List Edge) (done : List String) (v : String)
    → incoming es done v ≡ 0
    → All (λ e. to_id e ≡ v → 1 ≤ count (from_id e) done) es
unfolding incoming
zero-incoming [] done v h = tt
zero-incoming (e ∷ es) done v h =
    (λ t. ground (arith, eq_iff (to_id e) v), zero-incoming es done v (omega arith))

-- `u` stands in the list, and `v` not before it.
unfoldable pub precedes : String → String → List String → Bool
precedes u v [] = false
precedes u v (x ∷ xs) = if str_eq x v then false else if str_eq x u then true else precedes u v xs

pub precedes-append :
    (u v : String) (xs ys : List String) → precedes u v xs ≡ true → precedes u v (xs ++ ys) ≡ true
unfolding precedes
precedes-append u v [] ys h = ground arith
precedes-append u v (x ∷ xs) ys h = ground (arith, precedes-append u v xs ys)

pub precedes_last :
    (u v : String) (xs ys : List String)
    → 1 ≤ count u xs
    → count v xs ≡ 0
    → precedes u v (xs ++ ys) ≡ true
unfolding precedes count
precedes_last u v [] ys h k = absurd (omega arith)
precedes_last u v (x ∷ xs) ys h k = ground (arith, precedes_last u v xs ys)

-- One occurrence of an id is taken out.
drop_one : String → List String → List String
drop_one v [] = []
drop_one v (x ∷ xs) = if str_eq x v then xs else x ∷ drop_one v xs

count-drop_one :
    (v u : String) (xs : List String)
    → 1 ≤ count v xs
    → count u xs ≡ (if str_eq v u then 1 else 0) + count u (drop_one v xs)
unfolding drop_one count
count-drop_one v u [] h = absurd (omega arith)
count-drop_one v u (x ∷ xs) h =
    ground (arith, count-drop_one v u xs, eq_iff x v, eq_iff v u, eq_iff x u)

length-drop_one :
    (v : String) (xs : List String) → 1 ≤ count v xs → length xs ≡ suc (length (drop_one v xs))
unfolding drop_one count
length-drop_one v [] h = absurd (omega arith)
length-drop_one v (x ∷ xs) h = ground (arith, length-drop_one v xs)

no_ids : (xs : List String) → length xs ≡ 0 → (v : String) → count v xs ≡ 0
unfolding count
no_ids [] h v = refl
no_ids (x ∷ xs) h v = absurd (omega arith)

-- A list with no id more often than another is not longer; if it is as long, it has the same ids.
pub count-le :
    (xs ys : List String)
    → ((v : String) → count v xs ≤ count v ys)
    → (length xs ≤ length ys) × (length xs ≡ length ys → (v : String) → count v xs ≡ count v ys)
unfolding count
count-le [] ys h = (omega arith, λ e v. omega (arith, no_ids ys (omega arith) v))
count-le (x ∷ xs) ys h =
    let there : 1 ≤ count x ys = ground (arith, h x, eq_refl x) in
    let (shorter, same) =
      count-le xs (drop_one x ys) (λ v. omega (arith, h v, count-drop_one x v ys there)) in
    let size = length-drop_one x ys there in
    (omega arith, λ e v. omega (arith, same (omega arith) v, count-drop_one x v ys there))
