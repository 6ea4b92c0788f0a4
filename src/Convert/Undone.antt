-- ===== src/Convert/Undone.antt =====
-- Two conversions of types/aiconv/aiconv.go, the second of which undoes the first.
use adk_go.Convert.Contents.{convert_all, convert_pointer}
use adk_go.Base.{Option, none, some, List, [], ◌∷◌, Outcome, ok, ◌≡◌, All, refl, map, ap, ◌∙◌}

module _ {A B : Type 0} (back : B → Outcome A) (forth : A → Outcome B) where
  -- The first conversion succeeds, and the second gives this.
  abbrev pub IsReturned : B → B → Type 0
  IsReturned b c = (a : A) × (back b ≡ ok a) × (forth a ≡ ok c)

  -- The one conversion succeeds, and the other undoes it.
  abbrev pub IsUndone : B → Type 0
  IsUndone b = IsReturned b b

-- A pointer is nil or points to a value with the predicate.
abbrev pub IsPointedTo : {B : Type 0} → (B → Type 0) → Option B → Type 0
IsPointedTo p none = Unit
IsPointedTo p (some b) = p b

abbrev pub behind : {B : Type 0} → (B → B) → Option B → Option B
behind f none = none
behind f (some b) = some (f b)

behind-id : {B : Type 0} (o : Option B) → behind (λ b. b) o ≡ o
behind-id none = refl
behind-id (some b) = refl

map-id : {B : Type 0} (bs : List B) → map (λ b. b) bs ≡ bs
map-id [] = refl
map-id (b ∷ bs) = rw (map-id bs) refl

module _ {A B : Type 0} (back : B → Outcome A) (forth : A → Outcome B) (f : B → B) where
  pub convert_pointer-IsReturned :
      {p : B → Type 0} (h : (b : B) → p b → IsReturned back forth b (f b)) (b : Option B)
      → IsPointedTo p b
      → IsReturned (convert_pointer back) (convert_pointer forth) b (behind f b)
  unfolding convert_pointer
  convert_pointer-IsReturned h none at = (none, refl, refl)
  convert_pointer-IsReturned h (some b) at =
      let (a, there, home) = h b at in (some a, rw there refl, rw home refl)

  pub convert_all-IsReturned :
      {p : B → Type 0} (h : (b : B) → p b → IsReturned back forth b (f b)) (bs : List B)
      → All p bs
      → IsReturned (convert_all back) (convert_all forth) bs (map f bs)
  unfolding convert_all
  convert_all-IsReturned h [] each = ([], refl, refl)
  convert_all-IsReturned h (b ∷ bs) (first, rest) =
      let (a, there, home) = h b first in
      let (others, all_there, all_home) = convert_all-IsReturned h bs rest in
      (a ∷ others, rw (there, all_there) refl, rw (home, all_home) refl)

module _ {A B : Type 0} (back : B → Outcome A) (forth : A → Outcome B) where
  pub convert_pointer-IsUndone :
      {p : B → Type 0} (h : (b : B) → p b → IsUndone back forth b) (b : Option B)
      → IsPointedTo p b
      → IsUndone (convert_pointer back) (convert_pointer forth) b
  convert_pointer-IsUndone h b at =
      let (a, there, home) = convert_pointer-IsReturned back forth (λ b. b) h b at in
      (a, there, home ∙ ap ok (behind-id b))

  pub convert_all-IsUndone :
      {p : B → Type 0} (h : (b : B) → p b → IsUndone back forth b) (bs : List B)
      → All p bs
      → IsUndone (convert_all back) (convert_all forth) bs
  convert_all-IsUndone h bs each =
      let (a, there, home) = convert_all-IsReturned back forth (λ b. b) h bs each in
      (a, there, home ∙ ap ok (map-id bs))
