-- ===== src/Repository/Redis/KeyNames.antt =====
-- The keys of domains, of records and of instances are different ones.
use tsdns.Prelude.{
  ℤ, ◌==ℤ◌, ==ℤ_iff, ◌≡◌, refl, sym, ap, ◌∙◌, Bool, true, false, [], ◌∷◌, ◌++◌, Bytes, arith,
  length, take, take_append, ◌↔◌,
}
use mathlib.Core.Option.{some_inj}
use tsdns.Text.Bytes.{codes, equal, equal_iff, equal_refl, contains, index}
use tsdns.Text.Bytes.Laws.{index_append}
use tsdns.Text.Decimal.{format_int}
use tsdns.Text.Decimal.Signed.{format_int-injective, contains-format_int}
use tsdns.Repository.Redis.Commands.{key_domains, key_record, key_instance_domains}

pub equal_append : (p a b : Bytes) → equal (p ++ a) (p ++ b) ≡ equal a b
unfolding equal
equal_append [] a b = refl
equal_append (c ∷ p) a b = ground (arith, equal_append p a b)

-- Two tests agree if each implies the other.
Bool-same : (a b : Bool) → (a ≡ true) ↔ (b ≡ true) → a ≡ b
Bool-same true true h = refl
Bool-same true false h = sym (h.0 refl)
Bool-same false true h = h.1 refl
Bool-same false false h = refl

-- What stands before the first colon is determined by the text.
before_colon :
    (a b s : Bytes)
    → contains a b':' ≡ false
    → contains b b':' ≡ false
    → a ++ b':' ∷ s ≡ b ++ b':' ∷ s
    → a ≡ b
before_colon a b s ha hb e =
    let len : length a ≡ length b =
      some_inj.0
        (sym (index_append a b':' s ha) ∙ ap (λ t. index t b':') e ∙ index_append b b':' s hb) in
    sym (take_append a (b':' ∷ s))
    ∙ ap (take (length a)) e
    ∙ ap (λ n. take n (b ++ b':' ∷ s)) len
    ∙ take_append b (b':' ∷ s)

-- What stands behind the prefix.
abbrev domains_part : Bytes
domains_part = codes ":domains"

abbrev record_part : Bytes → Bytes
record_part d = codes ":record:" ++ d

abbrev numbered : ℤ → Bytes
numbered i = format_int i ++ codes ":domains"

abbrev instance_part : ℤ → Bytes
instance_part i = codes ":instance:" ++ numbered i

module _ (prefix : Bytes) where
  pub record_record : (d e : Bytes) → equal (key_record prefix d) (key_record prefix e) ≡ equal d e
  unfolding key_record
  record_record d e =
      equal_append prefix (record_part d) (record_part e) ∙ equal_append (codes ":record:") d e

  pub instance_instance :
      (i j : ℤ) → equal (key_instance_domains prefix i) (key_instance_domains prefix j) ≡ (i ==ℤ j)
  unfolding key_instance_domains
  instance_instance i j =
      equal_append prefix (instance_part i) (instance_part j)
      ∙ equal_append (codes ":instance:") (numbered i) (numbered j)
      ∙ Bool-same (equal (numbered i) (numbered j)) (i ==ℤ j) (
        λ e. (==ℤ_iff i j).1 (
            format_int-injective i j (
              before_colon _ _ (codes "domains") (contains-format_int i) (contains-format_int j)
                ((equal_iff _ _).0 e))),
        λ e. (equal_iff _ _).1 (ap numbered ((==ℤ_iff i j).0 e)),
      )

  pub domains_domains : equal (key_domains prefix) (key_domains prefix) ≡ true
  domains_domains = equal_refl (key_domains prefix)

  pub record_domains : (d : Bytes) → equal (key_record prefix d) (key_domains prefix) ≡ false
  unfolding key_record key_domains
  record_domains d = equal_append prefix (record_part d) domains_part ∙ unfold equal in refl

  pub domains_record : (d : Bytes) → equal (key_domains prefix) (key_record prefix d) ≡ false
  unfolding key_record key_domains
  domains_record d = equal_append prefix domains_part (record_part d) ∙ unfold equal in refl

  pub record_instance :
      (d : Bytes) (i : ℤ) → equal (key_record prefix d) (key_instance_domains prefix i) ≡ false
  unfolding key_record key_instance_domains
  record_instance d i = equal_append prefix (record_part d) (instance_part i) ∙ unfold equal in refl

  pub instance_record :
      (i : ℤ) (d : Bytes) → equal (key_instance_domains prefix i) (key_record prefix d) ≡ false
  unfolding key_record key_instance_domains
  instance_record i d = equal_append prefix (instance_part i) (record_part d) ∙ unfold equal in refl

  pub domains_instance :
      (i : ℤ) → equal (key_domains prefix) (key_instance_domains prefix i) ≡ false
  unfolding key_domains key_instance_domains
  domains_instance i = equal_append prefix domains_part (instance_part i) ∙ unfold equal in refl

  pub instance_domains :
      (i : ℤ) → equal (key_instance_domains prefix i) (key_domains prefix) ≡ false
  unfolding key_domains key_instance_domains
  instance_domains i = equal_append prefix (instance_part i) domains_part ∙ unfold equal in refl
