-- ===== src/Blockchain/Branch/Paths.antt =====
-- Parts of a path through the branch map of src/blockchain.rs.
use p2p_auction.Prelude.{
  String, eq_iff, ◌≡◌, refl, ap, ◌⊎◌, inl, inr, true, false, List, [], ◌∷◌, ◌++◌, arith, contains,
  contains-append,
}
use p2p_auction.Blockchain.Branch.{BranchMap, children}
use p2p_auction.Blockchain.Branch.Best.{Linked}
use p2p_auction.Blockchain.Branch.Compare.{last_of}
use p2p_auction.Blockchain.Branch.Depth.{IsDistinct}

pub last_of_part :
    (p : String) (part : List String) → (part ≡ []) ⊎ (contains part (last_of p part) ≡ true)
last_of_part p [] = inl refl
last_of_part p (c ∷ []) = inr (ground (arith, eq_iff c c))
last_of_part p (c ∷ d ∷ part) = elim (last_of_part c (d ∷ part)) [
  | inl e ↦ cc e
  | inr i ↦ inr (ground arith)
]

-- What follows a part of a path is a child of the end of that part.
pub Linked-at :
    (m : BranchMap) (p : String) (part : List String) (h : String) (rest : List String)
    → Linked m p (part ++ (h ∷ rest))
    → contains (children m (last_of p part)) h ≡ true
Linked-at m p [] h rest l = l.0
Linked-at m p (c ∷ part) h rest l = Linked-at m c part h rest l.1

pub Linked-part :
    (m : BranchMap) (p : String) (part rest : List String)
    → Linked m p (part ++ rest)
    → Linked m p part
Linked-part m p [] rest l = tt
Linked-part m p (c ∷ part) rest l = (l.0, Linked-part m c part rest l.1)

pub IsDistinct-apart :
    (xs ys : List String) (c : String)
    → IsDistinct (xs ++ ys)
    → contains xs c ≡ true
    → contains ys c ≡ false
IsDistinct-apart [] ys c d i = cc i
IsDistinct-apart (x ∷ xs) ys c d i =
    ground (arith, eq_iff x c, contains-append xs ys x, IsDistinct-apart xs ys c d.1)

pub append_one :
    (xs : List String) (h : String) (ys : List String) → xs ++ (h ∷ ys) ≡ (xs ++ (h ∷ [])) ++ ys
append_one [] h ys = refl
append_one (x ∷ xs) h ys = ap (λ zs. x ∷ zs) (append_one xs h ys)
