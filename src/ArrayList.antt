-- ===== src/ArrayList.antt =====
-- github.com/emirpasic/gods/lists/arraylist, which the program imports and does not contain: the
-- methods that channel.go calls, with what the package documents of them. `values` is Values().
-- The elements are references to tasks.
use downloadmgr.Prelude.{
  ℕ, ◌≤◌, ◌≡◌, refl, List, [], Option, length, get_elem?, insert_at, remove_at,
}

pub record ArrayList (L : Type 0) : Type 0 where
  pub empty : L
  pub values : L → List ℕ
  pub size : L → ℕ
  pub get : ℕ → L → Option ℕ
  pub insert : ℕ → ℕ → L → L
  pub remove : ℕ → L → L
  pub values-empty : values empty ≡ []
  pub size-values : (c : L) → size c ≡ length (values c)
  -- Get returns nothing out of range.
  pub get-values : (i : ℕ) (c : L) → get i c ≡ get_elem? (values c) i
  -- Insert shifts what stands at the index and after it; the size is a valid index.
  pub values-insert :
      (i x : ℕ) (c : L) → i ≤ length (values c) → values (insert i x c) ≡ insert_at i x (values c)
  pub values-remove : (i : ℕ) (c : L) → values (remove i c) ≡ remove_at i (values c)

-- Lists meet the interface.
instance abbrev pub list_array : ArrayList (List ℕ)
list_array = record {
  empty = [];
  values = λ c. c;
  size = length;
  get = λ i c. get_elem? c i;
  insert = insert_at;
  remove = remove_at;
  values-empty = refl;
  size-values = λ c. refl;
  get-values = λ i c. refl;
  values-insert = λ i x c h. refl;
  values-remove = λ i c. refl;
}
