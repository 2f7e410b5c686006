-- ===== src/Maps/Setup/Request.antt =====
-- Requests: a name, or a name and an index behind a colon.
use servant.Prelude.{List, ℕ, All, ◌++◌, ◌≡◌, ◌∷◌, none, ◌≢◌, arith, some, [], refl}
use servant.Maps.Setup.{split_colon, get_name_index_requested}
use servant.Prelude.Text.{atoi}
use servant.Prelude.Int.{minus_one}

-- No character of the text is a colon.
abbrev pub NoColon : List ℕ → Type 0
NoColon = All (λ c. c ≢ b':')

split_colon-none : (s : List ℕ) → NoColon s → split_colon s ≡ (s, none)
unfolding split_colon
split_colon-none [] h = refl
split_colon-none (c ∷ cs) h = ground (arith, split_colon-none cs h.1)

split_colon-some : (s t : List ℕ) → NoColon s → split_colon (s ++ b':' ∷ t) ≡ (s, some t)
unfolding split_colon
split_colon-some [] t h = refl
split_colon-some (c ∷ cs) t h = ground (arith, split_colon-some cs t h.1)

-- A request without a colon is the name alone, and asks for no index; `name:index` is the name before
-- the first colon and the number behind it.
pub get_name_index_requested_forms :
    (name index : List ℕ)
    → NoColon name
    → (get_name_index_requested name ≡ (name, minus_one))
      × (get_name_index_requested (name ++ b':' ∷ index) ≡ (name, atoi index))
unfolding get_name_index_requested
get_name_index_requested_forms name index h =
    (ground (arith, split_colon-none name h), ground (arith, split_colon-some name index h))
