-- ===== src/Chain/Block/Header.antt =====
-- The header of a block, written out, and read at its offsets by src/chain.c.
use namespace_indexer.Common.{
  ℕ, ◌+◌, ◌/◌, ◌%◌, ◌^◌, ◌<◌, ◌≡◌, ap, sym, ◌∙◌, false, List, ◌++◌, arith, length, length-append,
  take_whole, take, drop, take-append, drop-append, drop-drop, subst, le_read, le_write,
  length-le_write, le_read-le_write,
}
use namespace_indexer.Chain.Block.{field, has_auxpow}

pub record WireHeader : Type 0 where
  pub version : ℕ
  pub prev : ℕ
  pub merkle : ℕ
  pub time : ℕ
  pub bits : ℕ
  pub nonce : ℕ

-- The six fields one after another, least significant byte first.
unfoldable pub write_header : WireHeader → List ℕ
write_header h =
    le_write 4 h.version
    ++ (le_write 32 h.prev
        ++ (le_write 32 h.merkle
            ++ (le_write 4 h.time ++ (le_write 4 h.bits ++ le_write 4 h.nonce))))

-- The fields fit their widths, and the version announces no merged-mining proof.
pub record HeaderFits (h : WireHeader) : Type 0 where
  pub version : h.version < 2 ^ 32
  pub prev : h.prev < 2 ^ 256
  pub merkle : h.merkle < 2 ^ 256
  pub time : h.time < 2 ^ 32
  pub bits : h.bits < 2 ^ 32
  pub nonce : h.nonce < 2 ^ 32
  pub plain : h.version / 0x100 % 2 ≡ 0

drop_written : (k v : ℕ) (rest : List ℕ) → drop k (le_write k v ++ rest) ≡ rest
drop_written k v rest =
    subst (λ n. drop n (le_write k v ++ rest) ≡ rest) (length-le_write k v)
      (drop-append (le_write k v) rest)

take_written : (k v : ℕ) (rest : List ℕ) → take k (le_write k v ++ rest) ≡ le_write k v
take_written k v rest =
    subst (λ n. take n (le_write k v ++ rest) ≡ le_write k v) (length-le_write k v)
      (take-append (le_write k v) rest)

-- A field behind a number is the field of what follows the number.
field_behind :
    (k v offset n : ℕ) (rest : List ℕ)
    → field (k + offset) n (le_write k v ++ rest) ≡ field offset n rest
unfolding field
field_behind k v offset n rest =
    ap (λ xs. le_read (take n xs))
      (sym (drop-drop offset k (le_write k v ++ rest)) ∙ ap (drop offset) (drop_written k v rest))

field_here : (n v : ℕ) (rest : List ℕ) → v < 256 ^ n → field 0 n (le_write n v ++ rest) ≡ v
unfolding field
field_here n v rest h = ap le_read (take_written n v rest) ∙ le_read-le_write n v h

field_last : (n v : ℕ) → v < 256 ^ n → field 0 n (le_write n v) ≡ v
unfolding field
field_last n v h =
    ap le_read (take_whole n (le_write n v) (length-le_write n v)) ∙ le_read-le_write n v h

module _ (h : WireHeader) (f : HeaderFits h) where
  abbrev from_bits : List ℕ
  from_bits = le_write 4 h.bits ++ le_write 4 h.nonce

  abbrev from_time : List ℕ
  from_time = le_write 4 h.time ++ from_bits

  abbrev from_merkle : List ℕ
  from_merkle = le_write 32 h.merkle ++ from_time

  abbrev from_prev : List ℕ
  from_prev = le_write 32 h.prev ++ from_merkle

  pub length-write_header : length (write_header h) ≡ 80
  unfolding write_header
  length-write_header = omega (
    arith,
    length-append (le_write 4 h.version) from_prev,
    length-append (le_write 32 h.prev) from_merkle,
    length-append (le_write 32 h.merkle) from_time,
    length-append (le_write 4 h.time) from_bits,
    length-append (le_write 4 h.bits) (le_write 4 h.nonce),
    length-le_write 4 h.version,
    length-le_write 32 h.prev,
    length-le_write 32 h.merkle,
    length-le_write 4 h.time,
    length-le_write 4 h.bits,
    length-le_write 4 h.nonce,
  )

  pub field_version : field 0 4 (write_header h) ≡ h.version
  unfolding write_header
  field_version = field_here 4 h.version from_prev f.version

  pub field_prev : field 4 32 (write_header h) ≡ h.prev
  unfolding write_header
  field_prev = field_behind 4 h.version 0 32 from_prev ∙ field_here 32 h.prev from_merkle f.prev

  pub field_merkle : field 36 32 (write_header h) ≡ h.merkle
  unfolding write_header
  field_merkle =
      field_behind 4 h.version 32 32 from_prev
      ∙ field_behind 32 h.prev 0 32 from_merkle
      ∙ field_here 32 h.merkle from_time f.merkle

  -- A field from the time on.
  field_late : (offset n : ℕ) → field (68 + offset) n (write_header h) ≡ field offset n from_time
  unfolding write_header
  field_late offset n =
      subst (λ k. field k n (write_header h) ≡ field offset n from_time) (omega arith)
        (field_behind 4 h.version (32 + (32 + offset)) n from_prev
          ∙ field_behind 32 h.prev (32 + offset) n from_merkle
          ∙ field_behind 32 h.merkle offset n from_time)

  pub field_time : field 68 4 (write_header h) ≡ h.time
  field_time = field_late 0 4 ∙ field_here 4 h.time from_bits f.time

  pub field_bits : field 72 4 (write_header h) ≡ h.bits
  field_bits =
      field_late 4 4
      ∙ field_behind 4 h.time 0 4 from_bits
      ∙ field_here 4 h.bits (le_write 4 h.nonce) f.bits

  pub field_nonce : field 76 4 (write_header h) ≡ h.nonce
  field_nonce =
      field_late 8 4
      ∙ field_behind 4 h.time 4 4 from_bits
      ∙ field_behind 4 h.bits 0 4 (le_write 4 h.nonce)
      ∙ field_last 4 h.nonce f.nonce

  pub has_auxpow-write_header : has_auxpow (write_header h) ≡ false
  unfolding has_auxpow
  has_auxpow-write_header = let e = field_version in let p = f.plain in ground arith
