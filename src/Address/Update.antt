-- ===== src/Address/Update.antt =====
-- `address_table_write_update`: which mappings it prints.
use bismark_passive.Prelude.{
  ℕ, zero, suc, ◌+◌, ◌≤◌, ◌<◌, ◌≡◌, refl, sym, ap, ◌∙◌, true, List, [], ◌∷◌, ◌++◌, arith, length,
  get_or, take, drop, map, length-take_le, none, some, Option, Option-cases, inl, inr,
}
use mathlib.Core.Path.{fun_ext}
use mathlib.Core.List.{reverse, reverse-append}
use bismark_passive.Prelude.Int.{pos, ◌+ℤ◌, ◌-ℤ◌, int_laws}
use bismark_passive.Prelude.Printf.{
  ◌>>=◌, blank_line, with_handle, Call, Printf, put_all, put_all-append, str, uint,
}
use bismark_passive.Constants.{mac_table_entries}
use bismark_passive.Platform.{Platform}
use bismark_passive.Util.Encoding.{hex_digits, buffer_to_hex-hex_digits}
use bismark_passive.Anonymization.{Hmac, Anonymizer, anonymize_ip, anonymize_mac, eth_alen}
use bismark_passive.Address.{
  Mapping, AddressTable, no_mapping, norm, mapping_line, address_header, write_mappings,
  write_update,
}
use bismark_passive.Address.Ring.{back, norm-back, IsValid, recent, mappings, take-recent}

recent-snoc :
    (es : List Mapping) (last k n : ℕ)
    → recent es last k (suc n) ≡ recent es last k n ++ get_or es (back last (k + n)) no_mapping ∷ []
unfolding recent
recent-snoc es last k zero = let e : k + 0 ≡ k = omega arith in rw e
recent-snoc es last k (suc n) =
    let e : k + suc n ≡ k + 1 + n = omega arith in
    rw e (ap (λ l. get_or es (back last k) no_mapping ∷ l) (recent-snoc es last (k + 1) n))

reverse-recent :
    (es : List Mapping) (last n : ℕ)
    → reverse (recent es last 0 (suc n))
      ≡ get_or es (back last n) no_mapping ∷ reverse (recent es last 0 n)
reverse-recent es last n =
    let e : 0 + n ≡ n = omega arith in
    rw (recent-snoc es last 0 n, e) (reverse-append (recent es last 0 n) _)

-- `last - idx + 1` for the `idx`-th newest mapping
norm_of_round :
    (last k : ℕ) → k < mac_table_entries → norm (pos last -ℤ pos (suc k) +ℤ pos 1) ≡ back last k
norm_of_round last k h =
    ap norm (let e : pos last -ℤ pos (suc k) +ℤ pos 1 ≡ pos last -ℤ pos k = omega int_laws in e)
    ∙ norm-back last k (omega arith)

module _ (sha1_hmac : Hmac) (p : Platform) (a : Anonymizer) where
  -- The line of a mapping: the manufacturer's part of the MAC address in clear, the rest hashed.
  pub published_line : Mapping → Call
  published_line m = record {
    format = "%s %PRIx64\n";
    args =
        str (
          hex_digits
            (take eth_alen (take 3 m.mac_address ++ drop 3 (sha1_hmac a.seed m.mac_address))))
        ∷ uint (p.word64 (take 8 (sha1_hmac a.seed (p.bytes32 m.ip_address))))
        ∷ [];
  }

  mapping_line-published :
      (m : Mapping) → a.initialized ≡ true → mapping_line sha1_hmac p a m ≡ some (published_line m)
  unfolding mapping_line published_line anonymize_ip anonymize_mac
  mapping_line-published m init =
      let digest =
        take eth_alen (take 3 m.mac_address ++ drop 3 (sha1_hmac a.seed m.mac_address)) in
      let short : length digest ≤ 511 = omega (
        arith,
        length-take_le eth_alen (take 3 m.mac_address ++ drop 3 (sha1_hmac a.seed m.mac_address)),
      ) in
      rw (init, buffer_to_hex-hex_digits digest short)

  module _ {H : Type 0} (gzprintf : Printf H) (init : a.initialized ≡ true) where
    write_mappings-lines :
        (t : AddressTable) (k : ℕ) (h : H)
        → k ≤ mac_table_entries
        → write_mappings sha1_hmac p a gzprintf t k h
          ≡ put_all gzprintf h (map published_line (reverse (recent t.entries t.last 0 k)))
    unfolding write_mappings recent
    write_mappings-lines t zero h le = refl
    write_mappings-lines t (suc k) h le =
        let m = get_or t.entries (back t.last k) no_mapping in
        rw (norm_of_round t.last k (omega arith), mapping_line-published m init)
          (ap (λ f. gzprintf h (published_line m) >>= f)
              (fun_ext λ h'. write_mappings-lines t k h' (omega arith))
            ∙ ap (λ l. put_all gzprintf h (map published_line l))
                (sym (reverse-recent t.entries t.last k)))

    -- An update prints where the new mappings begin and the width of the table, then the mappings
    -- added since the last update, oldest first, and a blank line, up to the first call that fails;
    -- if none fails, no mapping is left to print and the table is otherwise as it was.
    pub address-write_update :
        (t : AddressTable) (h : H)
        → IsValid t
        → write_update sha1_hmac p a gzprintf t h ≡ (
            put_all gzprintf h (
              address_header t
                ∷ map published_line (reverse (take t.added_since_last_update (mappings t)))
              ++ blank_line ∷ [])
            >>= with_handle (record t { added_since_last_update = 0 }))
    unfolding write_update mappings
    address-write_update t h v = elim (Option-cases (gzprintf h (address_header t))) [
      | inl failed ↦ rw failed
      | inr (h₁, ok) ↦
          rw
            (
              ok,
              take-recent t.entries t.last 0 t.length t.added_since_last_update v.added,
              write_mappings-lines t t.added_since_last_update h₁
                  (omega (arith, v.added, v.within)),
              put_all-append gzprintf h₁
                  (map published_line
                    (reverse (recent t.entries t.last 0 t.added_since_last_update)))
                  (blank_line ∷ []),
            )
            (finish (
              put_all gzprintf h₁ (
                map published_line
                  (reverse (recent t.entries t.last 0 t.added_since_last_update)))))
    ]
      where
        finish :
            (o : Option H)
            → (o >>= λ h₂.
                gzprintf h₂ blank_line >>= with_handle (record t { added_since_last_update = 0 }))
              ≡ ((o >>= λ h₂. put_all gzprintf h₂ (blank_line ∷ []))
                  >>= with_handle (record t { added_since_last_update = 0 }))
        finish none = refl
        finish (some h₂) = elim (Option-cases (gzprintf h₂ blank_line)) [
          | inl failed ↦ rw failed
          | inr (h₃, ok) ↦ rw ok
        ]
