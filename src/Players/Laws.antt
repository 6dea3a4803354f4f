-- ===== src/Players/Laws.antt =====
-- Laws of the maps, and how each update changes the sum of a field over the players.
use pace_poker.Prelude.{
  ℕ, ◌+◌, String, none, some, List, [], ◌∷◌, ◌≡◌, ◌≢◌, refl, arith, str_eq, eq_iff, if◌then◌else◌,
}
use pace_poker.Proto.{PlayerState}
use pace_poker.Players.{get, put, delete, adjust, map_values, total}

module _ {ℓ} {V : Type ℓ} where
  pub get-put :
      (k i : String) (v : V) (m : List (String × V))
      → get i (put k v m) ≡ (if str_eq k i then some v else get i m)
  get-put k i v [] = refl
  get-put k i v ((j, w) ∷ m) = ground (arith, eq_iff j k, eq_iff j i, eq_iff k i, get-put k i v m)

  pub get-put_self : (k : String) (v : V) (m : List (String × V)) → get k (put k v m) ≡ some v
  get-put_self k v m = ground (arith, get-put k k v m, eq_iff k k)

  pub get-put_ne :
      (k i : String) (v : V) (m : List (String × V)) → k ≢ i → get i (put k v m) ≡ get i m
  get-put_ne k i v m h = ground (arith, get-put k i v m, eq_iff k i)

  pub get-adjust_self :
      (k : String) (f : V → V) (v : V) (m : List (String × V))
      → get k m ≡ some v
      → get k (adjust k f m) ≡ some (f v)
  get-adjust_self k f v [] h = ground arith
  get-adjust_self k f v ((j, w) ∷ m) h = ground (arith, get-adjust_self k f v m)

  pub get-adjust_ne :
      (k i : String) (f : V → V) (m : List (String × V)) → k ≢ i → get i (adjust k f m) ≡ get i m
  get-adjust_ne k i f [] h = refl
  get-adjust_ne k i f ((j, w) ∷ m) h =
      ground (arith, eq_iff j k, eq_iff j i, get-adjust_ne k i f m h)

module _ (f : PlayerState → ℕ) where
  pub total-put :
      (k : String) (v old : PlayerState) (m : List (String × PlayerState))
      → get k m ≡ some old
      → total f (put k v m) + f old ≡ total f m + f v
  total-put k v old [] h = ground arith
  total-put k v old ((j, w) ∷ m) h = ground (arith, total-put k v old m)

  pub total-put_new :
      (k : String) (v : PlayerState) (m : List (String × PlayerState))
      → get k m ≡ none
      → total f (put k v m) ≡ total f m + f v
  total-put_new k v [] h = ground arith
  total-put_new k v ((j, w) ∷ m) h = ground (arith, total-put_new k v m)

  pub total-delete :
      (k : String) (old : PlayerState) (m : List (String × PlayerState))
      → get k m ≡ some old
      → total f (delete k m) + f old ≡ total f m
  total-delete k old [] h = ground arith
  total-delete k old ((j, w) ∷ m) h = ground (arith, total-delete k old m)

  pub total-delete_absent :
      (k : String) (m : List (String × PlayerState))
      → get k m ≡ none
      → total f (delete k m) ≡ total f m
  total-delete_absent k [] h = refl
  total-delete_absent k ((j, w) ∷ m) h = ground (arith, total-delete_absent k m)

  -- An update that keeps the field keeps its sum.
  pub total-adjust :
      (k : String) (g : PlayerState → PlayerState) (m : List (String × PlayerState))
      → ((p : PlayerState) → f (g p) ≡ f p)
      → total f (adjust k g m) ≡ total f m
  total-adjust k g [] h = refl
  total-adjust k g ((j, w) ∷ m) h = ground (arith, h w, total-adjust k g m h)

  pub total-adjust-some :
      (k : String) (g : PlayerState → PlayerState) (old : PlayerState)
      (m : List (String × PlayerState))
      → get k m ≡ some old
      → total f (adjust k g m) + f old ≡ total f m + f (g old)
  total-adjust-some k g old [] h = ground arith
  total-adjust-some k g old ((j, w) ∷ m) h = ground (arith, total-adjust-some k g old m)

  pub total-adjust-none :
      (k : String) (g : PlayerState → PlayerState) (m : List (String × PlayerState))
      → get k m ≡ none
      → total f (adjust k g m) ≡ total f m
  total-adjust-none k g [] h = refl
  total-adjust-none k g ((j, w) ∷ m) h = ground (arith, total-adjust-none k g m)

  pub total-map_values :
      (g : PlayerState → PlayerState) (m : List (String × PlayerState))
      → ((p : PlayerState) → f (g p) ≡ f p)
      → total f (map_values g m) ≡ total f m
  total-map_values g [] h = refl
  total-map_values g ((j, w) ∷ m) h = ground (arith, h w, total-map_values g m h)

  pub total-map_values_zero :
      (g : PlayerState → PlayerState) (m : List (String × PlayerState))
      → ((p : PlayerState) → f (g p) ≡ 0)
      → total f (map_values g m) ≡ 0
  total-map_values_zero g [] h = refl
  total-map_values_zero g ((j, w) ∷ m) h = ground (arith, h w, total-map_values_zero g m h)
