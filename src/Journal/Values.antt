-- ===== src/Journal/Values.antt =====
-- What is written as a value is read back from it.
use ajit_segment_bots.Prelude.{
  ◌≡◌, ℕ, ◌+◌, [], ◌∷◌, ◌++◌, arith, length, refl, ◌<◌, some, String, ok, drop, ap, ◌∙◌, suc, zero,
}
use ajit_segment_bots.Journal.{
  Bytes, TextCodec, span, bytes_of, pack_field, journal_value, journal_decode, decode_text,
  settings_value, settings_decode,
}
use ajit_segment_bots.Journal.Packing.{unpack_field-pack, length-bytes_of, drop-at, take-at}

-- UTF-8 reads what it wrote.
abbrev pub Restores : TextCodec → Type 0
Restores codec = (s : String) → codec.decode (codec.encode s) ≡ some s

module _ (codec : TextCodec) (restores : Restores codec) where
  decode_text-encode : (s : String) → decode_text codec (codec.encode s) ≡ ok s
  unfolding decode_text
  decode_text-encode s = rw (decode_text, restores s) refl

  -- The pieces of a value whose lengths are `a` and `b`.
  abbrev value_of : ℕ → ℕ → ℕ → Bytes → Bytes → Bytes → Bytes
  value_of a b checksum dt pr payload =
      bytes_of 2 a ++ (bytes_of 2 b ++ (bytes_of 4 checksum ++ (dt ++ (pr ++ payload))))

  journal_value-ok :
      (data_type provenance : String) (checksum : ℕ) (payload v : Bytes)
      → journal_value codec data_type provenance checksum payload ≡ ok v
      → (length (codec.encode data_type) < span 2)
        × (length (codec.encode provenance) < span 2)
        × (checksum < span 4)
        × (v
            ≡ value_of
                (length (codec.encode data_type))
                (length (codec.encode provenance))
                checksum
                (codec.encode data_type)
                (codec.encode provenance)
                payload)
  unfolding journal_value pack_field
  journal_value-ok data_type provenance checksum payload v h = ground (arith, h)

  suc-add : (n k : ℕ) → suc n + k ≡ suc (n + k)
  suc-add n k = omega arith

  drop-further : (n k : ℕ) (s : Bytes) → drop (n + k) s ≡ drop k (drop n s)
  drop-further zero k s = ap (λ m. drop m s) (omega arith)
  drop-further (suc n) zero [] = ap (λ m. drop m []) (suc-add n zero)
  drop-further (suc n) (suc k) [] = ap (λ m. drop m []) (suc-add n (suc k))
  drop-further (suc n) k (b ∷ s) = ap (λ m. drop m (b ∷ s)) (suc-add n k) ∙ drop-further n k s

  decode-value_of :
      (data_type provenance : String) (checksum : ℕ) (payload : Bytes)
      → length (codec.encode data_type) < span 2
      → length (codec.encode provenance) < span 2
      → checksum < span 4
      → journal_decode codec (
          value_of
            (length (codec.encode data_type))
            (length (codec.encode provenance))
            checksum
            (codec.encode data_type)
            (codec.encode provenance)
            payload)
        ≡ ok (data_type, provenance, checksum, payload)
  unfolding journal_decode bytes_of
  decode-value_of data_type provenance checksum payload small_a small_b small_c =
      let dt = codec.encode data_type in
      let pr = codec.encode provenance in
      let a = length dt in
      let b = length pr in
      let v = value_of a b checksum dt pr payload in
      let at_pr : drop (8 + a) v ≡ pr ++ payload =
        drop-further 8 a v ∙ drop-at a dt (pr ++ payload) refl in
      let at_payload : drop (8 + a + b) v ≡ payload =
        drop-further (8 + a) b v ∙ ap (drop b) at_pr ∙ drop-at b pr payload refl in
      rw
        (
          unpack_field-pack 2 a 0 v _ small_a refl,
          unpack_field-pack 2 b 2 v _ small_b refl,
          unpack_field-pack 4 checksum 4 v _ small_c refl,
          take-at a dt (pr ++ payload) refl,
          decode_text-encode data_type,
          at_pr,
          take-at b pr payload refl,
          decode_text-encode provenance,
          at_payload,
        )
        refl

  -- If a data type, a provenance, a checksum and a payload are packed as a value, then decoding the
  -- value gives the four of them, whatever the texts and the payload hold.
  pub journal_decode-journal_value :
      (data_type provenance : String) (checksum : ℕ) (payload v : Bytes)
      → journal_value codec data_type provenance checksum payload ≡ ok v
      → journal_decode codec v ≡ ok (data_type, provenance, checksum, payload)
  journal_decode-journal_value data_type provenance checksum payload v h =
      let (small_a, small_b, small_c, whole) =
        journal_value-ok data_type provenance checksum payload v h in
      ap (journal_decode codec) whole
      ∙ decode-value_of data_type provenance checksum payload small_a small_b small_c

  settings_value-ok :
      (updated_ns : ℕ) (value_str : String) (v : Bytes)
      → settings_value codec updated_ns value_str ≡ ok v
      → (updated_ns < span 8) × (v ≡ bytes_of 8 updated_ns ++ codec.encode value_str)
  unfolding settings_value pack_field
  settings_value-ok updated_ns value_str v h = ground (arith, h)

  settings_decode-bytes :
      (updated_ns : ℕ) (value_str : String)
      → updated_ns < span 8
      → settings_decode codec (bytes_of 8 updated_ns ++ codec.encode value_str)
        ≡ ok (updated_ns, value_str)
  unfolding settings_decode
  settings_decode-bytes updated_ns value_str small =
      rw
        (
          unpack_field-pack 8 updated_ns 0 _ (codec.encode value_str) small refl,
          drop-at 8 (bytes_of 8 updated_ns) (codec.encode value_str) (length-bytes_of 8 updated_ns),
          decode_text-encode value_str,
        )
        refl

  -- If a time and a text are packed as a setting, then decoding gives both of them.
  pub settings_decode-settings_value :
      (updated_ns : ℕ) (value_str : String) (v : Bytes)
      → settings_value codec updated_ns value_str ≡ ok v
      → settings_decode codec v ≡ ok (updated_ns, value_str)
  settings_decode-settings_value updated_ns value_str v h =
      let (small, whole) = settings_value-ok updated_ns value_str v h in
      ap (settings_decode codec) whole ∙ settings_decode-bytes updated_ns value_str small
