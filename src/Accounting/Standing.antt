-- ===== src/Accounting/Standing.antt =====
-- A ledger whose entries of one type have a line on each side, and the ways in which a correction
-- changes it (internal/app/repayment_corrections.go).
use kopdes.Base.{
  ℕ, ◌<◌, ◌≡◌, sym, ap, ◌∙◌, true, false, not, none, List, [], ◌∷◌, ◌++◌, keep, All, All-append_one,
  ok, arith,
}
use kopdes.Base.Text.{Text, text_eq}
use kopdes.Base.Table.{
  find, update, IsKeyed, IsKeyed-update, IsKeyed-append_one, All-update, All-find, find-append_one,
}
use kopdes.Base.Keyed.{IsKeyed-keep, All-keep, All-map}
use kopdes.Accounting.Types.{Entry, posted}
use kopdes.Accounting.Journal.{status_of}
use kopdes.Accounting.Balance.{IsBalanced, HasStatus}
use kopdes.Accounting.Reversal.{key_of_entry, is_reversed, reverse_entry, set_amounts}
use kopdes.Accounting.Reversed.{
  IsPaired, set_amounts-balanced, set_amounts-IsPaired, set_amounts-status, reversed-IsPaired,
  reverse_entry-IsBalanced, reverse_entry_lem,
}
use kopdes.Accounting.Live.{Stands}

-- The entries have unique identifiers, balance, and those of the type have a debit and a credit.
pub record IsOrdered (type : Text) (es : List Entry) : Type 0 where
  pub entered : IsKeyed key_of_entry es
  pub paired : All (λ (e : Entry). text_eq e.transaction_type type ≡ true → IsPaired e.lines) es
  pub balanced : All (λ (e : Entry). IsBalanced e × HasStatus e) es

-- An identifier in no row of the ledger.
pub record IsNew (id : Text) (es : List Entry) : Type 0 where
  pub not_entered : find key_of_entry id es ≡ none
  pub not_reversed : is_reversed id es ≡ false

-- The amount of every line becomes a number, what identifies the entry stays.
pub record Amends (f : Entry → Entry) (n : ℕ) : Type 0 where
  pub same_id : (x : Entry) → (f x).id ≡ x.id
  pub same_transaction : (x : Entry) → (f x).transaction_id ≡ x.transaction_id
  pub same_type : (x : Entry) → (f x).transaction_type ≡ x.transaction_type
  pub same_reversal : (x : Entry) → (f x).reversal_of ≡ x.reversal_of
  pub same_status : (x : Entry) → (f x).status ≡ x.status
  pub amount : (x : Entry) → (f x).amount ≡ n
  pub lines : (x : Entry) → (f x).lines ≡ set_amounts n x.lines

-- Two lines under a new amount.
amended-IsBalanced :
    (e c : Entry) (n : ℕ)
    → c.lines ≡ set_amounts n e.lines
    → c.amount ≡ n
    → 0 < n
    → IsPaired e.lines
    → IsBalanced c
amended-IsBalanced e c n lines amount z p =
    let (d, k) = set_amounts-balanced n e.lines p in
    record {
      debited = rw (lines, amount) d;
      credited = rw (lines, amount) k;
      is_positive = rw amount z;
    }

module _ (type : Text) (es : List Entry) (o : IsOrdered type es) where
  pub removed-IsOrdered :
      (id : Text) → IsOrdered type (keep (λ (x : Entry). not (text_eq x.id id)) es)
  removed-IsOrdered id =
      let test = λ (x : Entry). not (text_eq x.id id) in
      record {
        entered = IsKeyed-keep key_of_entry test es o.entered;
        paired = All-map _ _ (keep test es) (λ x h. h.0) (All-keep _ test es o.paired);
        balanced = All-map _ _ (keep test es) (λ x h. h.0) (All-keep _ test es o.balanced);
      }

  module _ (t : Text) (e : Entry) (s : Stands es t type e) where
    stands_type : text_eq e.transaction_type type ≡ true
    stands_type = ground (arith, s.live)

    stands-IsPaired : IsPaired e.lines
    stands-IsPaired = All-find key_of_entry _ e.id es s.row o.paired stands_type

    pub amended-IsOrdered :
        (f : Entry → Entry) (n : ℕ)
        → Amends f n
        → 0 < n
        → IsOrdered type (update key_of_entry e.id f es)
    amended-IsOrdered f n a z = record {
      entered = IsKeyed-update key_of_entry e.id f es (λ x _. a.same_id x) o.entered;
      paired =
          All-update key_of_entry _ e.id f es s.row o.paired
            (λ _. rw (a.lines e) (set_amounts-IsPaired n e.lines stands-IsPaired));
      balanced = All-update key_of_entry _ e.id f es s.row o.balanced (
        amended-IsBalanced e (f e) n (a.lines e) (a.amount e) z stands-IsPaired,
        a.same_status e
            ∙ (All-find key_of_entry _ e.id es s.row o.balanced).1
            ∙ sym (set_amounts-status n e.lines)
            ∙ ap status_of (sym (a.lines e)),
      );
    }

    pub reversed-IsOrdered :
        (today prefix actor_id new_id : Text) {r : Entry}
        → reverse_entry e today prefix actor_id new_id ≡ ok r
        → IsNew new_id es
        → IsOrdered type (es ++ r ∷ [])
    reversed-IsOrdered today prefix actor_id new_id {r} h fresh =
        let (_, _, _, _, same) = reverse_entry_lem e today prefix actor_id new_id {r = r} h in
        record {
          entered = IsKeyed-append_one key_of_entry es r (rw same fresh.not_entered) o.entered;
          paired =
              All-append_one _ es r o.paired
                (λ _. rw same (reversed-IsPaired e.lines stands-IsPaired));
          balanced =
              All-append_one _ es r o.balanced
                (reverse_entry-IsBalanced e today prefix actor_id new_id {r = r} h);
        }

    -- The entry that replaces it.
    pub replaced-IsOrdered :
        (today prefix actor_id new_id : Text) {r : Entry} (c : Entry) (n : ℕ)
        → reverse_entry e today prefix actor_id new_id ≡ ok r
        → IsNew new_id es
        → IsNew c.id es
        → text_eq new_id c.id ≡ false
        → e.status ≡ posted
        → c.status ≡ posted
        → c.amount ≡ n
        → c.lines ≡ set_amounts n e.lines
        → 0 < n
        → IsOrdered type ((es ++ r ∷ []) ++ c ∷ [])
    replaced-IsOrdered today prefix actor_id new_id {r} c n h fresh unused apart was status amount
          lines z =
        let (_, _, _, _, same) = reverse_entry_lem e today prefix actor_id new_id {r = r} h in
        let o' = reversed-IsOrdered today prefix actor_id new_id {r = r} h fresh in
        record {
          entered =
              IsKeyed-append_one key_of_entry (es ++ r ∷ []) c
                (find-append_one key_of_entry c.id es r unused.not_entered (rw same apart))
                o'.entered;
          paired =
              All-append_one _ (es ++ r ∷ []) c o'.paired
                (λ _. rw lines (set_amounts-IsPaired n e.lines stands-IsPaired));
          balanced = All-append_one _ (es ++ r ∷ []) c o'.balanced (
            amended-IsBalanced e c n lines amount z stands-IsPaired,
            status
                ∙ sym was
                ∙ (All-find key_of_entry _ e.id es s.row o.balanced).1
                ∙ sym (set_amounts-status n e.lines)
                ∙ ap status_of (sym lines),
          );
        }
