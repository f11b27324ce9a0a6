-- ===== src/Server/Commutation.antt =====
-- Grants under two different keys do not disturb one another, however the two workers of
-- `record_granted` (agent/utils.c) interleave.
use tp_sistemas_operativos_i.Prelude.{
  ◌≡◌, ◌≢◌, refl, sym, ap, ◌∙◌, Option, some, Bool, true, false, ◌==◌, if◌then◌else◌, Bool-cases,
  inl, inr, arith,
}
use tp_sistemas_operativos_i.HashTable.{HashTable, tablahash_find}
use tp_sistemas_operativos_i.HashTable.Chain.{same-left}
use tp_sistemas_operativos_i.HashTable.Valid.{IsValid, insert-IsValid}
use tp_sistemas_operativos_i.HashTable.Lookup.{find-insert}
use tp_sistemas_operativos_i.Domain.{ReceivedJob, job_callbacks, comp_job}
use tp_sistemas_operativos_i.Domain.Keys.{job_callbacks-IsKeyed}
use tp_sistemas_operativos_i.Server.{Server, Peers, type_name, address_of, record_granted}
use tp_sistemas_operativos_i.Server.Ledger.{granted_job-key}
use tp_sistemas_operativos_i.Server.Interleaving.{
  Grant, Phase, waits, looked, recorded, Shared, key_of, entry, inserted, Step, left_looks,
  left_records, right_looks, right_records, Reach, here, next, beginning, ending,
}

module _ (peer : Peers) (g h : Grant) where
  -- The server after the two calls.
  abbrev pub both_recorded : Server → Server
  both_recorded s =
      record_granted peer (record_granted peer s g.job_id g.socket (type_name g.resource) g.amount)
        h.job_id h.socket (type_name h.resource) h.amount

  abbrev is_recorded : Phase → Bool
  is_recorded recorded = true
  is_recorded _ = false

  module _ (t₀ : HashTable ReceivedJob) (apart : comp_job (key_of peer g) (key_of peer h) ≢ 0) where
    abbrev found₀ : ReceivedJob → Option ReceivedJob
    found₀ = tablahash_find job_callbacks t₀

    -- What a search gives, by who has inserted.
    abbrev expected : Bool → Bool → ReceivedJob → Option ReceivedJob
    expected l r q =
        if comp_job (key_of peer g) q == 0
        then (if l then some (entry peer (found₀ (key_of peer g)) g) else found₀ q)
        else (if comp_job (key_of peer h) q == 0
            then (if r then some (entry peer (found₀ (key_of peer h)) h) else found₀ q)
            else found₀ q)

    record Inv (s : Shared) : Type 0 where
      valid : IsValid job_callbacks s.table
      lookup :
          (q : ReceivedJob)
          → tablahash_find job_callbacks s.table q
            ≡ expected (is_recorded s.left) (is_recorded s.right) q
      left_seen : (f : Option ReceivedJob) → s.left ≡ looked f → f ≡ found₀ (key_of peer g)
      right_seen : (f : Option ReceivedJob) → s.right ≡ looked f → f ≡ found₀ (key_of peer h)

    looked-injective : (f f' : Option ReceivedJob) → looked f ≡ looked f' → f ≡ f'
    looked-injective f f' e = cc

    recorded≢looked : (f : Option ReceivedJob) → recorded ≢ looked f
    recorded≢looked f e = cc

    waits≢looked : (f : Option ReceivedJob) → waits ≢ looked f
    waits≢looked f e = cc

    -- The reservation of a grant is under its key.
    entry-comp :
        (x : Grant) (q : ReceivedJob)
        → (comp_job (entry peer (found₀ (key_of peer x)) x) q == 0)
          ≡ (comp_job (key_of peer x) q == 0)
    entry-comp x q =
        same-left job_callbacks job_callbacks-IsKeyed (entry peer (found₀ (key_of peer x)) x)
          (key_of peer x) q
          (granted_job-key t₀ x.job_id (address_of (peer x.socket)) x.socket x.resource x.amount)

    expected-left : (r : Bool) → expected false r (key_of peer g) ≡ found₀ (key_of peer g)
    expected-left r = let own = job_callbacks-IsKeyed.comp_refl (key_of peer g) in rw own refl

    expected-right : (l : Bool) → expected l false (key_of peer h) ≡ found₀ (key_of peer h)
    expected-right l =
        let own = job_callbacks-IsKeyed.comp_refl (key_of peer h) in
        let other : (comp_job (key_of peer g) (key_of peer h) == 0) ≡ false =
          ground (arith, apart) in
        rw (other, own) refl

    -- An insertion of a grant that was built from what the table had at first.
    inserted-lookup :
        (t : HashTable ReceivedJob) (x : Grant) (found : Option ReceivedJob) (q : ReceivedJob)
        → IsValid job_callbacks t
        → found ≡ found₀ (key_of peer x)
        → tablahash_find job_callbacks (inserted peer t found x) q ≡ (
            if comp_job (key_of peer x) q == 0
            then some (entry peer (found₀ (key_of peer x)) x)
            else tablahash_find job_callbacks t q)
    inserted-lookup t x found q v e =
        ap (λ (f : Option ReceivedJob). tablahash_find job_callbacks (inserted peer t f x) q) e
        ∙ find-insert job_callbacks job_callbacks-IsKeyed t (entry peer (found₀ (key_of peer x)) x)
            q v
        ∙ rw (entry-comp x q) refl

    left-expected :
        (r : Bool) (q : ReceivedJob)
        → (if comp_job (key_of peer g) q == 0
            then some (entry peer (found₀ (key_of peer g)) g)
            else expected false r q)
          ≡ expected true r q
    left-expected r q = elim (Bool-cases (comp_job (key_of peer g) q == 0)) [
      | inl own ↦ rw own refl
      | inr other ↦ rw other refl
    ]

    right-expected :
        (l : Bool) (q : ReceivedJob)
        → (if comp_job (key_of peer h) q == 0
            then some (entry peer (found₀ (key_of peer h)) h)
            else expected l false q)
          ≡ expected l true q
    right-expected l q = elim (Bool-cases (comp_job (key_of peer h) q == 0)) [
      | inr other ↦ rw other refl
      | inl own ↦
          let keyed = job_callbacks-IsKeyed in
          let differs : (comp_job (key_of peer g) q == 0) ≡ false = ground (
            arith,
            apart,
            own,
            keyed.comp_symm (key_of peer h) q,
            keyed.comp_trans (key_of peer g) q (key_of peer h),
          ) in
          rw (own, differs) refl
    ]

    Step-Inv : {s u : Shared} → Step peer g h s u → Inv s → Inv u
    Step-Inv (left_looks t other) v = record {
      valid = v.valid;
      lookup = v.lookup;
      left_seen = λ f e.
          sym (looked-injective (tablahash_find job_callbacks t (key_of peer g)) f e)
          ∙ v.lookup (key_of peer g)
          ∙ expected-left (is_recorded other);
      right_seen = v.right_seen;
    }
    Step-Inv (left_records t found other) v = record {
      valid = insert-IsValid job_callbacks job_callbacks-IsKeyed t (entry peer found g) v.valid;
      lookup = λ q.
          inserted-lookup t g found q v.valid (v.left_seen found refl)
          ∙ (rw (v.lookup q) (left-expected (is_recorded other) q));
      left_seen = λ f e. absurd (recorded≢looked f e);
      right_seen = v.right_seen;
    }
    Step-Inv (right_looks t other) v = record {
      valid = v.valid;
      lookup = v.lookup;
      left_seen = v.left_seen;
      right_seen = λ f e.
          sym (looked-injective (tablahash_find job_callbacks t (key_of peer h)) f e)
          ∙ v.lookup (key_of peer h)
          ∙ expected-right (is_recorded other);
    }
    Step-Inv (right_records t found other) v = record {
      valid = insert-IsValid job_callbacks job_callbacks-IsKeyed t (entry peer found h) v.valid;
      lookup = λ q.
          inserted-lookup t h found q v.valid (v.right_seen found refl)
          ∙ (rw (v.lookup q) (right-expected (is_recorded other) q));
      left_seen = v.left_seen;
      right_seen = λ f e. absurd (recorded≢looked f e);
    }

    Reach-Inv : {s u : Shared} → Reach peer g h s u → Inv s → Inv u
    Reach-Inv here v = v
    Reach-Inv (next r st) v = Step-Inv st (Reach-Inv r v)

    beginning-Inv : IsValid job_callbacks t₀ → Inv (beginning peer g h t₀)
    beginning-Inv valid = record {
      valid = valid;
      lookup = λ q. elim (Bool-cases (comp_job (key_of peer g) q == 0)) [
        | inl own ↦ rw own refl
        | inr other ↦ elim (Bool-cases (comp_job (key_of peer h) q == 0)) [
          | inl own ↦ rw (other, own) refl
          | inr neither ↦ rw (other, neither) refl
        ]
      ];
      left_seen = λ f e. absurd (waits≢looked f e);
      right_seen = λ f e. absurd (waits≢looked f e);
    }

  -- One worker after the other.
  sequential :
      (s : Server)
      → Reach peer g h
          (beginning peer g h s.table_nodejobs)
          (ending peer g h (both_recorded s).table_nodejobs)
  unfolding record_granted
  sequential s =
      next
        (next
          (next (next here (left_looks s.table_nodejobs waits))
            (left_records s.table_nodejobs _ waits))
          (right_looks _ recorded))
        (right_records _ _ recorded)

  -- Two workers record grants under two different keys in a well-formed table: however their searches
  -- and insertions interleave, every search of the table that they leave gives what it gives when
  -- one call of `record_granted` follows the other.
  pub interleaved_grants :
      (s : Server) (t : HashTable ReceivedJob) (q : ReceivedJob)
      → IsValid job_callbacks s.table_nodejobs
      → comp_job (key_of peer g) (key_of peer h) ≢ 0
      → Reach peer g h (beginning peer g h s.table_nodejobs) (ending peer g h t)
      → tablahash_find job_callbacks t q
        ≡ tablahash_find job_callbacks (both_recorded s).table_nodejobs q
  interleaved_grants s t q valid apart run =
      let start = beginning-Inv s.table_nodejobs apart valid in
      (Reach-Inv s.table_nodejobs apart run start).lookup q
      ∙ sym ((Reach-Inv s.table_nodejobs apart (sequential s) start).lookup q)
