-- ===== src/Fec/Parity.antt =====
-- src/fec.cpp: what the parity rows of a lane hold after the packets it took.
use norr.Prelude.{
  ℕ, zero, suc, ◌+◌, ◌-◌, ◌≤◌, ◌<◌, bit_xor, ◌≡◌, refl, sym, ap, ap₂, subst, ◌∙◌, List, [], ◌∷◌,
  ◌++◌, map, true, false, ltb, length, length-append, get_or, All, All-append, All-replicate,
  take-all, get_or-append_left, length-replicate, get_or-replicate, replicate, arith,
}
use native.Mathlib.Decide.{dec_lt, ℕ_discrete}
use norr.Prelude.Bytes.{IsByte, byte_at}
use norr.Prelude.Xor.{bit_xor_self}
use norr.Fec.Field.{product, inverse, cauchy}
use norr.Fec.FieldLaws.{inverse_lem, product-zero}
use norr.Fec.Vector.{
  add_products, multiply_add, multiply_add-add_products, length-add_products, add_products-IsByte,
  byte_at-add_products,
}
use norr.Fec.Dot.{dot}
use norr.Fec.Encoder.{Lane, resize, symbol_of, add_parity, widen, take_packet}

pub byte_at-past : (bytes : List ℕ) (j : ℕ) → length bytes ≤ j → byte_at bytes j ≡ 0
byte_at-past [] j h = refl
byte_at-past (b ∷ bytes) zero h = absurd (omega arith)
byte_at-past (b ∷ bytes) (suc j) h = byte_at-past bytes j (omega arith)

byte_at-append_zeros :
    (bytes : List ℕ) (n j : ℕ) → byte_at (bytes ++ replicate n 0) j ≡ byte_at bytes j
byte_at-append_zeros [] n j = get_or-replicate n j 0
byte_at-append_zeros (b ∷ bytes) n zero = refl
byte_at-append_zeros (b ∷ bytes) n (suc j) = byte_at-append_zeros bytes n j

module _ (n : ℕ) (row : List ℕ) (fits : length row ≤ n) where
  resize_lem : resize n row ≡ row ++ replicate (n - length row) 0
  unfolding resize
  resize_lem = ap (λ t. t ++ replicate (n - length row) 0) (take-all n row fits)

  pub length-resize : length (resize n row) ≡ n
  length-resize =
      ap length resize_lem
      ∙ length-append row (replicate (n - length row) 0)
      ∙ omega (arith, length-replicate {A = ℕ} (n - length row) 0)

  pub byte_at-resize : (j : ℕ) → byte_at (resize n row) j ≡ byte_at row j
  byte_at-resize j = ap (λ t. byte_at t j) resize_lem ∙ byte_at-append_zeros row (n - length row) j

  pub resize-IsByte : All IsByte row → All IsByte (resize n row)
  resize-IsByte h =
      subst (All IsByte) (sym resize_lem)
        (All-append IsByte row _ h (All-replicate IsByte (n - length row) 0 (omega arith)))

-- Byte j of each symbol.
abbrev pub column : List (List ℕ) → ℕ → ℕ → ℕ
column symbols j c = byte_at (get_or symbols c []) j

-- A symbol fits in the width and holds bytes.
abbrev pub Fits : ℕ → List ℕ → Type 0
Fits width symbol = (length symbol ≤ width) × All IsByte symbol

-- Row r is the sum of the symbols, each times its entry of the Cauchy matrix.
pub record IsParity (width r : ℕ) (symbols : List (List ℕ)) (row : List ℕ) : Type 0 where
  pub wide : length row ≡ width
  pub bytes : All IsByte row
  pub sums : (j : ℕ) → byte_at row j ≡ dot (length symbols) (λ c. cauchy r c) (column symbols j)

abbrev pub row_of : List (List ℕ) → ℕ → List ℕ
row_of parity r = get_or parity r []

-- A lane of n parity rows that took the packets of these symbols.
pub record Holds (n : ℕ) (symbols : List (List ℕ)) (lane : Lane) : Type 0 where
  pub count : lane.index ≡ length symbols
  pub rows : length lane.parity ≡ n
  pub fits : All (Fits lane.width) symbols
  pub each : (r : ℕ) → r < n → IsParity lane.width r symbols (row_of lane.parity r)

inverse-IsByte : (v : ℕ) → IsByte v → IsByte (inverse v)
inverse-IsByte v h = elim (ℕ_discrete v 0) [
  | yes e ↦ rw e inverse_zero
  | no ne ↦ (inverse_lem v ne h).1
]
  where
    inverse_zero : IsByte (inverse 0)
    inverse_zero = unfold inverse in omega arith

-- A byte past the end of the row counts as 0 too, where the symbol has none there either.
pub all_bytes :
    (c : ℕ) (row s : List ℕ) (j : ℕ)
    → length s ≤ length row
    → byte_at (add_products c row s) j ≡ bit_xor (byte_at row j) (product c (byte_at s j))
all_bytes c row s j h = elim (dec_lt j (length row)) [
  | yes p ↦ byte_at-add_products c row s j p
  | no p ↦
      byte_at-past (add_products c row s) j (omega (arith, length-add_products c row s))
      ∙ sym (
          ap₂ bit_xor (byte_at-past row j (omega arith))
            (ap (product c) (byte_at-past s j (omega arith)) ∙ product-zero c)
          ∙ bit_xor_self 0)
]

symbol_of-Fits :
    (width : ℕ) (packet : List ℕ)
    → 2 + length packet ≤ width
    → All IsByte packet
    → Fits width (symbol_of packet)
unfolding symbol_of
symbol_of-Fits width packet h octets = (omega arith, (omega arith, (omega arith, octets)))

pub cauchy-IsByte : (r c : ℕ) → IsByte (cauchy r c)
unfolding cauchy
cauchy-IsByte r c = inverse-IsByte _ (omega arith)

pub row_of-map :
    (f : List ℕ → List ℕ) (rows : List (List ℕ)) (r : ℕ)
    → r < length rows
    → row_of (map f rows) r ≡ f (row_of rows r)
row_of-map f [] r h = absurd (omega arith)
row_of-map f (p ∷ rows) zero h = refl
row_of-map f (p ∷ rows) (suc r) h = row_of-map f rows r (omega arith)

pub length-map : (f : List ℕ → List ℕ) (rows : List (List ℕ)) → length (map f rows) ≡ length rows
length-map f [] = refl
length-map f (p ∷ rows) = ap suc (length-map f rows)

All-wider :
    (n m : ℕ) (symbols : List (List ℕ)) → n ≤ m → All (Fits n) symbols → All (Fits m) symbols
All-wider n m [] h fits = tt
All-wider n m (s ∷ symbols) h fits =
    ((omega (arith, fits.0.0), fits.0.1), All-wider n m symbols h fits.1)

-- The lane made wide enough for a symbol holds the same packets.
module _ (n size : ℕ) (symbols : List (List ℕ)) (lane : Lane) (holds : Holds n symbols lane) where
  grown :
      lane.width < size
      → Holds n symbols (record lane { width = size; parity = map (resize size) lane.parity })
  grown h = record {
    count = holds.count;
    rows = length-map (resize size) lane.parity ∙ holds.rows;
    fits = All-wider lane.width size symbols (omega arith) holds.fits;
    each = λ r hr. resized r hr;
  }
    where
      resized : (r : ℕ) → r < n → IsParity size r symbols (row_of (map (resize size) lane.parity) r)
      resized r hr =
          let p = holds.each r hr in
          let fits : length (row_of lane.parity r) ≤ size = omega (arith, p.wide) in
          subst (IsParity size r symbols)
            (sym (row_of-map (resize size) lane.parity r (omega (arith, holds.rows))))
            (record {
              wide = length-resize size _ fits;
              bytes = resize-IsByte size _ fits p.bytes;
              sums = λ j. byte_at-resize size _ fits j ∙ p.sums j;
            })

  pub widen-Holds : Holds n symbols (widen size lane) × (size ≤ (widen size lane).width)
  unfolding widen
  widen-Holds = elim (dec_lt lane.width size) [
    | yes h ↦ let test : ltb lane.width size ≡ true = ground arith in rw test (grown h, omega arith)
    | no h ↦ let test : ltb lane.width size ≡ false = ground arith in rw test (holds, omega arith)
  ]

row_of-add_parity :
    (vector first index : ℕ) (symbol : List ℕ) (parity : List (List ℕ)) (r : ℕ)
    → r < length parity
    → row_of (add_parity vector first index symbol parity) r
      ≡ multiply_add vector (row_of parity r) symbol (cauchy (first + r) index)
unfolding add_parity
row_of-add_parity vector first index symbol [] r h = absurd (omega arith)
row_of-add_parity vector first index symbol (p ∷ parity) zero h =
    let e : first ≡ first + 0 = omega arith in
    ap (λ t. multiply_add vector p symbol (cauchy t index)) e
row_of-add_parity vector first index symbol (p ∷ parity) (suc r) h =
    let e : first + 1 + r ≡ first + suc r = omega arith in
    row_of-add_parity vector (first + 1) index symbol parity r (omega arith)
    ∙ ap (λ t. multiply_add vector (row_of parity r) symbol (cauchy t index)) e

length-add_parity :
    (vector first index : ℕ) (symbol : List ℕ) (parity : List (List ℕ))
    → length (add_parity vector first index symbol parity) ≡ length parity
unfolding add_parity
length-add_parity vector first index symbol [] = refl
length-add_parity vector first index symbol (p ∷ parity) =
    ap suc (length-add_parity vector (first + 1) index symbol parity)

column_before :
    (symbols : List (List ℕ)) (s : List ℕ) (j c : ℕ)
    → c < length symbols
    → column (symbols ++ s ∷ []) j c ≡ column symbols j c
column_before symbols s j c h = ap (λ t. byte_at t j) (get_or-append_left symbols (s ∷ []) c [] h)

column_last :
    (symbols : List (List ℕ)) (s : List ℕ) (j : ℕ)
    → column (symbols ++ s ∷ []) j (length symbols) ≡ byte_at s j
column_last [] s j = refl
column_last (p ∷ symbols) s j = column_last symbols s j

dot_cong_right : (n : ℕ) (a b b' : ℕ → ℕ) → ((c : ℕ) → c < n → b c ≡ b' c) → dot n a b ≡ dot n a b'
unfolding dot
dot_cong_right zero a b b' h = refl
dot_cong_right (suc n) a b b' h =
    ap₂ bit_xor (dot_cong_right n a b b' (λ c p. h c (omega arith)))
      (ap (product (a n)) (h n (omega arith)))

length-snoc :
    (symbols : List (List ℕ)) (s : List ℕ) → length (symbols ++ s ∷ []) ≡ suc (length symbols)
length-snoc symbols s = length-append symbols (s ∷ []) ∙ omega arith

-- A row that takes one more symbol.
taken :
    (vector width r : ℕ) (symbols : List (List ℕ)) (s row : List ℕ)
    → Fits width s
    → IsParity width r symbols row
    → IsParity width r (symbols ++ s ∷ []) (multiply_add vector row s (cauchy r (length symbols)))
unfolding dot
taken vector width r symbols s row fits p =
    let k : ℕ = length symbols in
    let c_lt = cauchy-IsByte r k in
    rw (multiply_add-add_products vector row s (cauchy r k) fits.1 c_lt) (record {
      wide = length-add_products (cauchy r k) row s ∙ p.wide;
      bytes = add_products-IsByte (cauchy r k) row s c_lt p.bytes fits.1;
      sums = λ j. sum_at j;
    })
  where
    sum_at :
        (j : ℕ)
        → byte_at (add_products (cauchy r (length symbols)) row s) j
          ≡ dot (length (symbols ++ s ∷ [])) (λ c. cauchy r c) (column (symbols ++ s ∷ []) j)
    sum_at j =
        all_bytes (cauchy r (length symbols)) row s j (omega (arith, p.wide, fits.0))
        ∙ ap₂ bit_xor
            (p.sums j
              ∙ dot_cong_right (length symbols) (λ c. cauchy r c) (column symbols j)
                  (column (symbols ++ s ∷ []) j) (λ c h. sym (column_before symbols s j c h)))
            (ap (product (cauchy r (length symbols))) (sym (column_last symbols s j)))
        ∙ ap (λ t. dot t (λ c. cauchy r c) (column (symbols ++ s ∷ []) j))
            (sym (length-snoc symbols s))

-- A lane that takes a packet holds it with those before it.
pub take_packet-Holds :
    (vector n : ℕ) (symbols : List (List ℕ)) (packet : List ℕ) (lane : Lane)
    → All IsByte packet
    → Holds n symbols lane
    → Holds n (symbols ++ symbol_of packet ∷ []) (take_packet vector packet lane)
unfolding take_packet
take_packet-Holds vector n symbols packet lane octets holds =
    let size : ℕ = 2 + length packet in
    let wide : Lane = widen size lane in
    let (held, room) = widen-Holds n size symbols lane holds in
    let fits : Fits wide.width (symbol_of packet) = symbol_of-Fits wide.width packet room octets in
    record {
      count = omega (arith, held.count, length-snoc symbols (symbol_of packet));
      rows = length-add_parity vector 0 wide.index (symbol_of packet) wide.parity ∙ held.rows;
      fits = All-append (Fits wide.width) symbols _ held.fits (fits, tt);
      each = λ r hr.
          subst (IsParity wide.width r (symbols ++ symbol_of packet ∷ []))
            (sym (
              row_of-add_parity vector 0 wide.index (symbol_of packet) wide.parity r
                (omega (arith, held.rows))
              ∙ ap₂
                  (λ s t.
                    multiply_add vector (row_of wide.parity r) (symbol_of packet) (cauchy s t))
                  (omega arith) held.count))
            (taken vector wide.width r symbols (symbol_of packet) (row_of wide.parity r) fits
              (held.each r hr));
    }
