-- ===== src/RemoteWatcherManager/Tasks.antt =====
-- `HashMap<K, _>` from keys to tasks, as an association list, and the set of running tasks.
use sinker.Prelude.{
  ℕ, ◌≡◌, ◌↔◌, refl, Bool, true, false, not, ◌&&◌, Option, none, some, List, [], ◌∷◌, retain,
  nat_eq, arith, if◌then◌else◌,
}

abbrev pub is_none : Option ℕ → Bool
is_none none = true
is_none (some _) = false

-- Whether a task is in the map, and whether it is running.
unfoldable pub owns {ℓ} : {K : Type ℓ} → ℕ → List (K × ℕ) → Bool
owns n [] = false
owns n ((k, task) ∷ ws) = if nat_eq task n then true else owns n ws

unfoldable pub is_running : ℕ → List ℕ → Bool
is_running n [] = false
is_running n (t ∷ ts) = if nat_eq t n then true else is_running n ts

pub is_running-retain :
    (n task : ℕ) (ts : List ℕ)
    → is_running n (retain (λ t. not (nat_eq t task)) ts)
      ≡ (if nat_eq task n then false else is_running n ts)
unfolding is_running
is_running-retain n task [] = ground arith
is_running-retain n task (t ∷ ts) = ground (arith, is_running-retain n task ts)

module _ {ℓ} {K : Type ℓ} (same : K → K → Bool) where
  -- `HashMap::get` and `HashMap::remove`
  unfoldable pub get : K → List (K × ℕ) → Option ℕ
  get key [] = none
  get key ((k, task) ∷ ws) = if same k key then some task else get key ws

  unfoldable pub remove : K → List (K × ℕ) → List (K × ℕ)
  remove key [] = []
  remove key ((k, task) ∷ ws) =
      let rest = remove key ws in if same k key then rest else (k, task) ∷ rest

  -- Every key and every task occurs once.
  unfoldable pub distinct : List (K × ℕ) → Bool
  unfolding owns get
  distinct [] = true
  distinct ((k, task) ∷ ws) = is_none (get k ws) && not (owns task ws) && distinct ws

module _ {ℓ} {K : Type ℓ} {same : K → K → Bool}
    (same_iff : (a b : K) → (same a b ≡ true) ↔ (a ≡ b)) where
  pub get-remove :
      (key k : K) (ws : List (K × ℕ))
      → get same k (remove same key ws) ≡ (if same key k then none else get same k ws)
  unfolding get remove
  get-remove key k [] = ground arith
  get-remove key k ((j, task) ∷ ws) =
      ground (arith, get-remove key k ws, same_iff key k, same_iff j key, same_iff j k)

  pub remove_absent :
      (key : K) (ws : List (K × ℕ)) → get same key ws ≡ none → remove same key ws ≡ ws
  unfolding get remove
  remove_absent key [] h = refl
  remove_absent key ((k, task) ∷ ws) h = ground (arith, remove_absent key ws)

  pub get-owns :
      (key : K) (task : ℕ) (ws : List (K × ℕ)) → get same key ws ≡ some task → owns task ws ≡ true
  unfolding get owns
  get-owns key task [] h = cc
  get-owns key task ((k, t) ∷ ws) h = ground (arith, get-owns key task ws)

  -- Removing a key of a map with distinct keys and tasks removes its task, and no other.
  pub owns-remove :
      (n : ℕ) (key : K) (task : ℕ) (ws : List (K × ℕ))
      → distinct same ws ≡ true
      → get same key ws ≡ some task
      → owns n (remove same key ws) ≡ (if nat_eq task n then false else owns n ws)
  unfolding distinct owns get remove
  owns-remove n key task [] d h = cc
  owns-remove n key task ((k, t) ∷ ws) d h =
      ground (
        arith,
        owns-remove n key task ws,
        remove_absent key ws,
        get-owns key task ws,
        same_iff k key,
      )

  owns-remove_absent :
      (n : ℕ) (key : K) (ws : List (K × ℕ))
      → owns n ws ≡ false
      → owns n (remove same key ws) ≡ false
  unfolding owns remove
  owns-remove_absent n key [] h = refl
  owns-remove_absent n key ((k, t) ∷ ws) h = ground (arith, owns-remove_absent n key ws)

  pub distinct-remove :
      (key : K) (ws : List (K × ℕ))
      → distinct same ws ≡ true
      → distinct same (remove same key ws) ≡ true
  unfolding distinct remove
  distinct-remove key [] d = refl
  distinct-remove key ((k, t) ∷ ws) d =
      ground (arith, distinct-remove key ws, get-remove key k ws, owns-remove_absent t key ws)
