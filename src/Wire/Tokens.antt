-- ===== src/Wire/Tokens.antt =====
-- `get_token` splits a line of words separated by single delimiters into exactly those words.
use tp_sistemas_operativos_i.Prelude.{
  ℕ, zero, suc, ◌≡◌, refl, List, [], ◌∷◌, ◌++◌, Bool, true, false, some, take, All,
}
use tp_sistemas_operativos_i.Wire.{skip, until, after, strtok, is_delimiter, get_token}

-- A token: not empty, and with no delimiter.
abbrev pub IsToken : (ℕ → Bool) → List ℕ → Type 0
IsToken delim [] = ⊥
IsToken delim (c ∷ cs) = All (λ c'. delim c' ≡ false) (c ∷ cs)

abbrev pub IsWord : List ℕ → Type 0
IsWord = IsToken is_delimiter

-- The words of a line, each followed by a space but the last, which the newline follows.
unfoldable pub line_of : List (List ℕ) → List ℕ
line_of [] = 10 ∷ []
line_of (w ∷ []) = w ++ 10 ∷ []
line_of (w ∷ v ∷ ws) = w ++ 32 ∷ line_of (v ∷ ws)

module _ (delim : ℕ → Bool) where
  until-append :
      (w rest : List ℕ) (d : ℕ)
      → All (λ c. delim c ≡ false) w
      → delim d ≡ true
      → until delim (w ++ d ∷ rest) ≡ w
  unfolding until
  until-append [] rest d h e = rw e
  until-append (c ∷ w) rest d h e = rw (h.0, until-append w rest d h.1 e)

  after-append :
      (w rest : List ℕ) (d : ℕ)
      → All (λ c. delim c ≡ false) w
      → delim d ≡ true
      → after delim (w ++ d ∷ rest) ≡ rest
  unfolding after
  after-append [] rest d h e = rw e
  after-append (c ∷ w) rest d h e = rw (h.0, after-append w rest d h.1 e)

  pub until-All : (w : List ℕ) → All (λ c. delim c ≡ false) w → until delim w ≡ w
  unfolding until
  until-All [] h = refl
  until-All (c ∷ w) h = rw (h.0, until-All w h.1)

  pub after-All : (w : List ℕ) → All (λ c. delim c ≡ false) w → after delim w ≡ []
  unfolding after
  after-All [] h = refl
  after-All (c ∷ w) h = rw (h.0) (after-All w h.1)

-- A token with a delimiter behind it.
pub strtok-token :
    (delim : ℕ → Bool) (w rest : List ℕ) (d : ℕ)
    → IsToken delim w
    → delim d ≡ true
    → strtok delim (w ++ d ∷ rest) ≡ some (w, rest)
unfolding strtok
strtok-token delim [] rest d h e = absurd h
strtok-token delim (c ∷ w) rest d h e =
    rw (skip, h.0, until-append delim (c ∷ w) rest d h e, after-append delim (c ∷ w) rest d h e)
      refl

-- A token at the end of the text.
pub strtok-last : (delim : ℕ → Bool) (w : List ℕ) → IsToken delim w → strtok delim w ≡ some (w, [])
unfolding strtok
strtok-last delim [] h = absurd h
strtok-last delim (c ∷ w) h =
    rw (skip, h.0, until-All delim (c ∷ w) h, after-All delim (c ∷ w) h) refl

get_token-step :
    (s : List ℕ) {t rest : List ℕ} (m : ℕ)
    → strtok is_delimiter s ≡ some (t, rest)
    → get_token s (suc m) ≡ t ∷ get_token rest m
unfolding get_token
get_token-step s m e = rw (e, get_token)

take-nil : (m : ℕ) → take {A = List ℕ} m [] ≡ []
take-nil zero = refl
take-nil (suc m) = refl

get_token-nil : (m : ℕ) → get_token [] m ≡ take m []
unfolding get_token
get_token-nil zero = refl
get_token-nil (suc m) = refl

-- A line of words tokenizes into those words, as many as the token array holds.
pub get_token-line_of :
    (ws : List (List ℕ)) (max_tokens : ℕ)
    → All IsWord ws
    → get_token (line_of ws) max_tokens ≡ take max_tokens ws
unfolding get_token line_of
get_token-line_of ws zero h = refl
get_token-line_of [] (suc m) h = refl
get_token-line_of (w ∷ []) (suc m) h =
    rw (get_token-step _ m (strtok-token is_delimiter w [] 10 h.0 refl), get_token-nil m)
get_token-line_of (w ∷ v ∷ ws) (suc m) h = rw (
  get_token-step _ m (strtok-token is_delimiter w (line_of (v ∷ ws)) 32 h.0 refl),
  get_token-line_of (v ∷ ws) m h.1,
)
