-- ===== src/Secret/Vault/Relocate.antt =====
-- internal/secret/vault.go: `RelocateSubjects` on two moves at once.
use ssh_ui.Base.{
  true, false, none, some, [], ◌∷◌, ◌≡◌, refl, ap, ◌∙◌, arith, Bytes, str_eq, str_eq_iff, ok, ◌>>=◌,
  Dict, lookup, insert, remove, lookup-insert, lookup-remove,
}
use ssh_ui.Secret.Vault.{
  Kind, key_passphrase, Vault, valid_subject, subjects, with_subjects, collect, put_name,
  remove_all, assigned, insert_all, place, relocate_subjects, valid_kind,
}

collect-move :
    (kind : Kind) (old rest moved : Dict Bytes) (from to : Bytes) {n : Bytes}
    → str_eq from to ≡ false
    → valid_subject kind to ≡ true
    → lookup from old ≡ some n
    → collect kind old ((from, to) ∷ rest) moved ≡ collect kind old rest (insert to n moved)
unfolding collect put_name
collect-move kind old rest moved from to e v h = rw (collect, e, v, h) refl

collect-stay :
    (kind : Kind) (old rest moved : Dict Bytes) (from to : Bytes)
    → str_eq from to ≡ true
    → collect kind old ((from, to) ∷ rest) moved ≡ collect kind old rest moved
unfolding collect
collect-stay kind old rest moved from to e = rw (collect, e) refl

collected :
    (rs v_moved : Dict Bytes) (v : Vault)
    → collect key_passphrase v.keys rs [] ≡ ok v_moved
    → relocate_subjects key_passphrase rs v ≡ ok (place key_passphrase rs v v_moved)
unfolding relocate_subjects valid_kind subjects
collected rs moved v e = ap (λ c. c >>= λ m. ok (place key_passphrase rs v m)) e

-- When two keys of different valid names that both have a credential change names with each
-- other, each of them takes its own credential along, although each target is also a source.
pub relocate_subjects-swap :
    (a b n m : Bytes) (v : Vault)
    → str_eq a b ≡ false
    → valid_subject key_passphrase a ≡ true
    → valid_subject key_passphrase b ≡ true
    → assigned key_passphrase a v ≡ some n
    → assigned key_passphrase b v ≡ some m
    → (w : Vault) × (relocate_subjects key_passphrase ((a, b) ∷ (b, a) ∷ []) v ≡ ok (true, w))
      × (assigned key_passphrase b w ≡ some n)
      × (assigned key_passphrase a w ≡ some m)
unfolding relocate_subjects valid_kind collect put_name place assigned subjects with_subjects
    remove_all insert_all insert
relocate_subjects-swap a b n m v ab va vb ea eb =
    let ba : str_eq b a ≡ false = ground (arith, str_eq_iff a b, str_eq_iff b a) in
    let d = remove b (remove a v.keys) in
    (
      with_subjects key_passphrase (insert a m (insert b n d)) v,
      collected ((a, b) ∷ (b, a) ∷ []) ((b, n) ∷ (a, m) ∷ []) v (
          collect-move key_passphrase v.keys ((b, a) ∷ []) [] a b ab vb ea
          ∙ collect-move key_passphrase v.keys [] ((b, n) ∷ []) b a ba va eb
          ∙ ap ok (swapped ba)),
      lookup-insert a b m (insert b n d)
          ∙ rw ab (lookup-insert b b n d ∙ rw ((str_eq_iff b b).1 refl) refl),
      lookup-insert a a m (insert b n d) ∙ rw ((str_eq_iff a a).1 refl) refl,
    )
  where
    swapped : str_eq b a ≡ false → insert a m ((b, n) ∷ []) ≡ (b, n) ∷ (a, m) ∷ []
    swapped e = rw e refl

-- A key that is listed under its own name, beside a move of a key that has a credential to a
-- valid third name, loses its credential.
pub relocate_subjects-lost :
    (a b c n : Bytes) (v : Vault)
    → str_eq b c ≡ false
    → str_eq c a ≡ false
    → valid_subject key_passphrase c ≡ true
    → assigned key_passphrase b v ≡ some n
    → (w : Vault) × (relocate_subjects key_passphrase ((a, a) ∷ (b, c) ∷ []) v ≡ ok (true, w))
      × (assigned key_passphrase a w ≡ none)
unfolding relocate_subjects valid_kind collect put_name place assigned subjects with_subjects
    remove_all insert_all insert
relocate_subjects-lost a b c n v bc ca vc eb =
    let d = remove b (remove a v.keys) in
    (
      with_subjects key_passphrase (insert c n d) v,
      collected ((a, a) ∷ (b, c) ∷ []) ((c, n) ∷ []) v (
          collect-stay key_passphrase v.keys ((b, c) ∷ []) [] a a ((str_eq_iff a a).1 refl)
          ∙ collect-move key_passphrase v.keys [] [] b c bc vc eb),
      gone d,
    )
  where
    gone : (d : Dict Bytes) → lookup a (insert c n (remove b (remove a v.keys))) ≡ none
    gone d =
        lookup-insert c a n (remove b (remove a v.keys))
        ∙ rw ca (
            lookup-remove b a (remove a v.keys)
            ∙ ground (arith, str_eq_iff a a, lookup-remove a a v.keys))
