-- ===== src/Fec/Field.antt =====
-- src/fec.cpp: the tables of GF(256), and its multiplication, inverse and Cauchy entries.
use norr.Prelude.{
  ℕ, zero, suc, ◌+◌, ◌-◌, ◌*◌, bit_and, bit_xor, List, [], ◌∷◌, ◌++◌, ◌||◌, ◌==◌, if◌then◌else◌,
  get_or, set, length, replicate,
}
use norr.Prelude.Bytes.{u8}
use norr.Fec.Header.{maximum_fec_data}

-- One round of the loop: the value times the generator.
unfoldable pub next_power : ℕ → ℕ
next_power value =
    let doubled = value * 2 in if bit_and doubled 0x100 == 0 then doubled else bit_xor doubled 0x11D

-- `exp[index] = value` for the rounds left.
unfoldable pub fill_exp : ℕ → ℕ → List ℕ
fill_exp zero value = []
fill_exp (suc left) value = u8 value ∷ fill_exp left (next_power value)

-- `exp[index] = exp[index - 255]` for the rounds left, at the end of the table so far.
unfoldable pub extend_exp : ℕ → List ℕ → List ℕ
extend_exp zero table = table
extend_exp (suc left) table = extend_exp left (table ++ get_or table (length table - 255) 0 ∷ [])

-- `log[value] = index` for the rounds left.
unfoldable pub fill_log : ℕ → ℕ → ℕ → List ℕ → List ℕ
fill_log zero index value table = table
fill_log (suc left) index value table =
    fill_log left (index + 1) (next_power value) (set table value (u8 index))

unfoldable pub exp_table : List ℕ
unfolding next_power fill_exp extend_exp
exp_table = extend_exp 257 (fill_exp 255 1)

unfoldable pub log_table : List ℕ
unfolding next_power fill_log
log_table = fill_log 255 0 1 (replicate 256 0)

unfoldable pub log : ℕ → ℕ
log value = get_or log_table value 0

-- An entry of `product`, whose first row and column stay 0.
unfoldable pub product : ℕ → ℕ → ℕ
product left right =
    if left == 0 || right == 0 then 0 else get_or exp_table (log left + log right) 0

unfoldable pub inverse : ℕ → ℕ
inverse value = if value == 0 then 0 else get_or exp_table (255 - log value) 0

unfoldable pub cauchy : ℕ → ℕ → ℕ
cauchy parity_row data_column =
    inverse (u8 (bit_xor (u8 (maximum_fec_data + parity_row)) (u8 data_column)))

-- The value times the generator, n times.
unfoldable pub advance : ℕ → ℕ → ℕ
advance zero x = x
advance (suc n) x = advance n (next_power x)
