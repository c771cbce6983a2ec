-- ===== src/Memory/Copy.antt =====
-- What memcpy and memset leave at each address.
use xenon_os.Base.{
  Bool, ℕ, zero, suc, ◌+◌, ◌-◌, ◌*◌, ◌/◌, ◌%◌, ◌^◌, ◌≤◌, ◌<◌, ◌≡◌, ◌⊎◌, inl, inr, refl, ◌&&◌, leb,
  ltb, if◌then◌else◌, arith, update, mul32, dec_lt, ◌∙◌,
}
use xenon_os.Memory.{
  Bytes, store32, load32, rep_movsl, rep_movsb, memcpy, rep_stosl, rep_stosb, memset,
}

-- Every value is a byte.
abbrev pub IsBytes : Bytes → Type 0
IsBytes m = (a : ℕ) → m a < 2 ^ 8

-- The two ranges of `n` bytes have no byte in common.
abbrev pub Disjoint : ℕ → ℕ → ℕ → Type 0
Disjoint d s n = (d + n ≤ s) ⊎ (s + n ≤ d)

-- The address lies among the `n` bytes from `d` on.
abbrev pub within : ℕ → ℕ → ℕ → Bool
within d n j = leb d j && ltb j (d + n)

-- Storing a word that was loaded copies four bytes: byte `i` to `j`.
store32-load32 :
    (m : Bytes) (d s i j : ℕ)
    → IsBytes m
    → d ≤ j
    → j < d + 4
    → i + d ≡ j + s
    → store32 m d (load32 m s) j ≡ m i
unfolding store32 load32
store32-load32 m d s i j h p q e = ground (arith, h s, h (s + 1), h (s + 2), h (s + 3))

store32-outside : (m : Bytes) (d word j : ℕ) → (j < d) ⊎ (d + 4 ≤ j) → store32 m d word j ≡ m j
unfolding store32
store32-outside m d word j h = ground arith

rep_movsb-outside : (n d s j : ℕ) (m : Bytes) → (j < d) ⊎ (d + n ≤ j) → rep_movsb n d s m j ≡ m j
unfolding rep_movsb
rep_movsb-outside zero d s j m h = refl
rep_movsb-outside (suc n) d s j m h =
    ground (arith, rep_movsb-outside n (d + 1) (s + 1) j (update m d (m s)))

rep_movsb-inside :
    (n d s i j : ℕ) (m : Bytes)
    → Disjoint d s n
    → d ≤ j
    → j < d + n
    → i + d ≡ j + s
    → rep_movsb n d s m j ≡ m i
unfolding rep_movsb
rep_movsb-inside zero d s i j m h p q e = absurd (omega arith)
rep_movsb-inside (suc n) d s i j m h p q e = ground (
  arith,
  rep_movsb-inside n (d + 1) (s + 1) i j (update m d (m s)),
  rep_movsb-outside n (d + 1) (s + 1) j (update m d (m s)),
)

rep_movsl-outside :
    (n d s j : ℕ) (m : Bytes) → (j < d) ⊎ (d + 4 * n ≤ j) → rep_movsl n d s m j ≡ m j
unfolding rep_movsl
rep_movsl-outside zero d s j m h = refl
rep_movsl-outside (suc n) d s j m h =
    rep_movsl-outside n (d + 4) (s + 4) j (store32 m d (load32 m s)) (omega arith)
    ∙ store32-outside m d (load32 m s) j (omega arith)

store32-IsBytes : (m : Bytes) (d word : ℕ) → IsBytes m → IsBytes (store32 m d word)
unfolding store32
store32-IsBytes m d word h j = ground (arith, h j)

rep_movsl-inside :
    (n d s i j : ℕ) (m : Bytes)
    → IsBytes m
    → Disjoint d s (4 * n)
    → d ≤ j
    → j < d + 4 * n
    → i + d ≡ j + s
    → rep_movsl n d s m j ≡ m i
unfolding rep_movsl
rep_movsl-inside zero d s i j m b h p q e = absurd (omega arith)
rep_movsl-inside (suc n) d s i j m b h p q e =
    let m' : Bytes = store32 m d (load32 m s) in
    elim (dec_lt j (d + 4)) [
      | yes first ↦
          rep_movsl-outside n (d + 4) (s + 4) j m' (omega arith)
          ∙ store32-load32 m d s i j b p first e
      | no later ↦
          rep_movsl-inside n (d + 4) (s + 4) i j m' (store32-IsBytes m d (load32 m s) b)
            (omega arith) (omega arith) (omega arith) (omega arith)
          ∙ store32-outside m d (load32 m s) i (omega arith)
    ]

module _ (dest src n : ℕ) (m : Bytes) where
  abbrev copied : ℕ
  copied = 4 * (n / 4)

  abbrev words_done : Bytes
  words_done = rep_movsl (n / 4) dest src m

  memcpy-outside : (j : ℕ) → (j < dest) ⊎ (dest + n ≤ j) → memcpy dest src n m j ≡ m j
  unfolding memcpy
  memcpy-outside j h =
      rep_movsb-outside (n % 4) (dest + copied) (src + copied) j words_done (omega arith)
      ∙ rep_movsl-outside (n / 4) dest src j m (omega arith)

  memcpy-inside :
      (i j : ℕ)
      → IsBytes m
      → Disjoint dest src n
      → dest ≤ j
      → j < dest + n
      → i + dest ≡ j + src
      → memcpy dest src n m j ≡ m i
  unfolding memcpy
  memcpy-inside i j b h p q e = elim (dec_lt j (dest + copied)) [
    | yes in_words ↦
        rep_movsb-outside (n % 4) (dest + copied) (src + copied) j words_done (omega arith)
        ∙ rep_movsl-inside (n / 4) dest src i j m b (omega arith) p in_words e
    | no in_rest ↦
        rep_movsb-inside (n % 4) (dest + copied) (src + copied) i j words_done (omega arith)
          (omega arith) (omega arith) (omega arith)
        ∙ rep_movsl-outside (n / 4) dest src i m (omega arith)
  ]

-- memcpy between ranges that do not overlap copies the `n` bytes, and changes no other byte.
pub memcpy-at :
    (dest src n j : ℕ) (m : Bytes)
    → IsBytes m
    → Disjoint dest src n
    → memcpy dest src n m j ≡ (if within dest n j then m (src + (j - dest)) else m j)
memcpy-at dest src n j m b h = elim (dec_lt j dest) [
  | yes before ↦ ground (arith, memcpy-outside dest src n m j (inl before))
  | no after ↦ elim (dec_lt j (dest + n)) [
    | yes inner ↦ ground (
      arith,
      memcpy-inside dest src n m (src + (j - dest)) j b h (omega arith) inner (omega arith),
    )
    | no beyond ↦ ground (arith, memcpy-outside dest src n m j (inr (omega arith)))
  ]
]

rep_stosb-at :
    (n d byte j : ℕ) (m : Bytes) → rep_stosb n d byte m j ≡ (if within d n j then byte else m j)
unfolding rep_stosb
rep_stosb-at zero d byte j m = ground arith
rep_stosb-at (suc n) d byte j m = ground (arith, rep_stosb-at n (d + 1) byte j (update m d byte))

-- A word of four equal bytes.
abbrev spread : ℕ → ℕ
spread byte = mul32 byte 0x01010101

store32-spread :
    (m : Bytes) (d byte j : ℕ)
    → byte < 2 ^ 8
    → store32 m d (spread byte) j ≡ (if within d 4 j then byte else m j)
unfolding store32
store32-spread m d byte j h = ground arith

rep_stosl-at :
    (n d byte j : ℕ) (m : Bytes)
    → byte < 2 ^ 8
    → rep_stosl n d (spread byte) m j ≡ (if within d (4 * n) j then byte else m j)
unfolding rep_stosl
rep_stosl-at zero d byte j m h = ground arith
rep_stosl-at (suc n) d byte j m h = ground (
  arith,
  rep_stosl-at n (d + 4) byte j (store32 m d (spread byte)) h,
  store32-spread m d byte j h,
)

-- memset fills the `n` bytes with the low byte of the value, and changes no other byte.
pub memset-at :
    (dest value n j : ℕ) (m : Bytes)
    → memset dest value n m j ≡ (if within dest n j then value % 2 ^ 8 else m j)
unfolding memset
memset-at dest value n j m =
    let byte : ℕ = value % 2 ^ 8 in
    let words : Bytes = rep_stosl (n / 4) dest (spread byte) m in
    ground (
      arith,
      rep_stosb-at (n % 4) (dest + 4 * (n / 4)) byte j words,
      rep_stosl-at (n / 4) dest byte j m (omega arith),
    )
