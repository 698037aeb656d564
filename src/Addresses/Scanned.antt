-- ===== src/Addresses/Scanned.antt =====
-- What convertIPString and convertMask of ship_server.c store of a text with four fields.
use tethealla.Base.{
  ℕ, suc, ◌+◌, ◌<◌, ◌≤◌, ◌≡◌, refl, sym, ap, ◌∙◌, List, [], ◌∷◌, ◌++◌, append-nil, append_assoc,
  Bool, true, false, ◌&&◌, leb, set, length, length-append, arith,
}
use tethealla.Addresses.{stored, is_plain, scan}

abbrev pub all_plain : List ℕ → Bool
all_plain [] = true
all_plain (c ∷ text) = is_plain c && all_plain text

pub both : (a b : Bool) → (a && b) ≡ true → (a ≡ true) × (b ≡ true)
both true b h = (refl, h)
both false b h = cc

scan-char :
    (dotted last : List ℕ → ℕ) (c : ℕ) (text buffer : List ℕ) (p2 : ℕ) (store : List ℕ)
    → is_plain c ≡ true
    → leb 5 (length buffer) ≡ false
    → scan dotted last (c ∷ text) buffer p2 store
      ≡ scan dotted last text (buffer ++ c ∷ []) p2 store
unfolding scan
scan-char dotted last c text buffer p2 store plain room = rw (plain, room) refl

-- The characters of a field go to the buffer.
scan-plain :
    (dotted last : List ℕ → ℕ) (field text buffer : List ℕ) (p2 : ℕ) (store : List ℕ)
    → all_plain field ≡ true
    → length buffer + length field ≤ 5
    → scan dotted last (field ++ text) buffer p2 store
      ≡ scan dotted last text (buffer ++ field) p2 store
scan-plain dotted last [] text buffer p2 store plain short =
    ap (λ b. scan dotted last text b p2 store) (sym (append-nil buffer))
scan-plain dotted last (c ∷ field) text buffer p2 store plain short =
    let (first, others) = both (is_plain c) (all_plain field) plain in
    scan-char dotted last c (field ++ text) buffer p2 store first (ground arith)
    ∙ (scan-plain dotted last field text (buffer ++ c ∷ []) p2 store others
          (omega (arith, length-append buffer (c ∷ [])))
        ∙ ap (λ b. scan dotted last text b p2 store) (append_assoc buffer (c ∷ []) field))

-- A dot that is not the fourth stores the field before it.
scan-dot :
    (dotted last : List ℕ → ℕ) (text buffer : List ℕ) (p2 : ℕ) (store : List ℕ)
    → length buffer ≤ 4
    → p2 < 3
    → scan dotted last (46 ∷ text) buffer p2 store
      ≡ scan dotted last text [] (suc p2) (set store p2 (dotted buffer))
unfolding scan
scan-dot dotted last text buffer p2 store short few =
    let room : leb 5 (length buffer) ≡ false = ground arith in
    let early : leb 3 p2 ≡ false = ground arith in rw (room, early) refl

-- The zero byte at the end stores the last field.
scan-end :
    (dotted last : List ℕ → ℕ) (buffer store : List ℕ)
    → length buffer ≤ 4
    → scan dotted last (0 ∷ []) buffer 3 store ≡ stored (set store 3 (last buffer))
unfolding scan
scan-end dotted last buffer store short =
    let room : leb 5 (length buffer) ≡ false = ground arith in rw room refl

-- A field of at most four characters, with the dot behind it
scan-field :
    (dotted last : List ℕ → ℕ) (field text : List ℕ) (p2 : ℕ) (store : List ℕ)
    → all_plain field ≡ true
    → length field ≤ 4
    → p2 < 3
    → scan dotted last (field ++ (46 ∷ text)) [] p2 store
      ≡ scan dotted last text [] (suc p2) (set store p2 (dotted field))
scan-field dotted last field text p2 store plain short few =
    scan-plain dotted last field (46 ∷ text) [] p2 store plain (omega arith)
    ∙ scan-dot dotted last text field p2 store short few

-- Four fields with dots between them and a zero byte behind
abbrev pub dotted_text : List ℕ → List ℕ → List ℕ → List ℕ → List ℕ
dotted_text f₁ f₂ f₃ f₄ = f₁ ++ (46 ∷ (f₂ ++ (46 ∷ (f₃ ++ (46 ∷ (f₄ ++ (0 ∷ [])))))))

pub record IsField (field : List ℕ) : Type 0 where
  pub plain : all_plain field ≡ true
  pub short : length field ≤ 4

-- Four fields of at most four characters are stored one by one.
pub scan-dotted_text :
    (dotted last : List ℕ → ℕ) (f₁ f₂ f₃ f₄ : List ℕ) (w x y z : ℕ)
    → IsField f₁
    → IsField f₂
    → IsField f₃
    → IsField f₄
    → scan dotted last (dotted_text f₁ f₂ f₃ f₄) [] 0 (w ∷ x ∷ y ∷ z ∷ [])
      ≡ stored (dotted f₁ ∷ dotted f₂ ∷ dotted f₃ ∷ last f₄ ∷ [])
scan-dotted_text dotted last f₁ f₂ f₃ f₄ w x y z i₁ i₂ i₃ i₄ =
    scan-field dotted last f₁ (f₂ ++ (46 ∷ (f₃ ++ (46 ∷ (f₄ ++ (0 ∷ [])))))) 0 (w ∷ x ∷ y ∷ z ∷ [])
      i₁.plain i₁.short (omega arith)
    ∙ (scan-field dotted last f₂ (f₃ ++ (46 ∷ (f₄ ++ (0 ∷ [])))) 1 (dotted f₁ ∷ x ∷ y ∷ z ∷ [])
          i₂.plain i₂.short (omega arith)
        ∙ (scan-field dotted last f₃ (f₄ ++ (0 ∷ [])) 2 (dotted f₁ ∷ dotted f₂ ∷ y ∷ z ∷ [])
              i₃.plain i₃.short (omega arith)
            ∙ (scan-plain dotted last f₄ (0 ∷ []) [] 3 (dotted f₁ ∷ dotted f₂ ∷ dotted f₃ ∷ z ∷ [])
                  i₄.plain (omega (arith, i₄.short))
                ∙ scan-end dotted last f₄ (dotted f₁ ∷ dotted f₂ ∷ dotted f₃ ∷ z ∷ []) i₄.short)))
