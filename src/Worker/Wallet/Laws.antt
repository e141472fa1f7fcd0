-- ===== src/Worker/Wallet/Laws.antt =====
-- What parseForDonations finds in a journal.
use esi_isk.Base.{◌≡◌, refl, not, List, [], ◌∷◌, map, keep, take_while, arith, ◌&&◌, ◌==◌, str_eq}
use esi_isk.Db.Types.{User}
use esi_isk.Worker.Esi.{JournalEntry}
use esi_isk.Worker.Wallet.{parse_for_donations, set_last_journal_id}

module _ {F : Type 0} where
  -- parseForDonations gives one donation for each entry that is a player_donation received by the
  -- user, in order, of those that stand before the first entry with the last known id, or of all if no
  -- id is known or none has it. Id, donator, time, note and amount are those of the entry, and the
  -- recipient is the user.
  pub parse_for_donations-eq :
      (entries : List (JournalEntry F)) (user : User)
      → parse_for_donations entries user
        ≡ map
            (λ (e : JournalEntry F). record {
              id = e.id;
              donator = e.first_party_id;
              recipient = user.character_id;
              timestamp = e.date;
              note = e.reason;
              amount = e.amount;
            })
            (keep
              (λ e. str_eq e.ref_type "player_donation" && e.second_party_id == user.character_id)
              (take_while
                (λ e. not (user.last_journal_id.valid && e.id == user.last_journal_id.int64))
                entries))
  unfolding parse_for_donations
  parse_for_donations-eq [] user = refl
  parse_for_donations-eq (e ∷ entries) user = ground (arith, parse_for_donations-eq entries user)

  -- After setLastJournalID saw a sorted journal that is not empty, parseForDonations finds no donation
  -- in any journal that starts with the same entry, whatever follows it.
  pub parse_for_donations-set_last_journal_id :
      (oldest : JournalEntry F) (entries more : List (JournalEntry F)) (user : User)
      → parse_for_donations (oldest ∷ more) (set_last_journal_id (oldest ∷ entries) user) ≡ []
  unfolding parse_for_donations set_last_journal_id
  parse_for_donations-set_last_journal_id oldest entries more user = ground arith
