-- ===== src/Home/Kinds.antt =====
-- How many of the requests under way are of a kind, as requests are sent and answered.
use block_chain.Common.{
  ℕ, zero, suc, Bool, true, false, not, ◌&&◌, List, [], ◌∷◌, ◌++◌, some, ◌≡◌, ◌+◌, arith, get_elem?,
  erase_idx,
}
use block_chain.Home.Page.{Job, register_identity, mint_asset, assign_role}

abbrev pub bit : Bool → ℕ
bit true = 1
bit false = 0

abbrev pub is_register : Job → Bool
is_register register_identity = true
is_register _ = false

abbrev pub is_mint : Job → Bool
is_mint mint_asset = true
is_mint _ = false

abbrev pub is_assign : Job → Bool
is_assign assign_role = true
is_assign _ = false

abbrev pub count : (Job → Bool) → List Job → ℕ
count kind [] = 0
count kind (job ∷ jobs) = bit (kind job) + count kind jobs

module _ (kind : Job → Bool) where
  pub count-append : (xs ys : List Job) → count kind (xs ++ ys) ≡ count kind xs + count kind ys
  count-append [] ys = omega arith
  count-append (x ∷ xs) ys = omega (arith, count-append xs ys)

  pub count-erase_idx :
      (jobs : List Job) (i : ℕ) {job : Job}
      → get_elem? jobs i ≡ some job
      → count kind (erase_idx jobs i) + bit (kind job) ≡ count kind jobs
  count-erase_idx [] i e = cc
  count-erase_idx (x ∷ xs) zero e = ground arith
  count-erase_idx (x ∷ xs) (suc i) e = omega (arith, count-erase_idx xs i e)

-- The count after an answer to a request that was of the kind or not, where a flag tells the count.
pub count-answered :
    (of_kind flag : Bool) (rest whole : ℕ)
    → rest + bit of_kind ≡ whole
    → whole ≡ bit flag
    → rest ≡ bit (flag && not of_kind)
count-answered true true rest whole h k = omega arith
count-answered true false rest whole h k = omega arith
count-answered false true rest whole h k = omega arith
count-answered false false rest whole h k = omega arith
