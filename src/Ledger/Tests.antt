-- ===== src/Ledger/Tests.antt =====
-- Tests of the audit ledger, and its theorems at concrete ledgers.
use reserach.Base.{ℕ, zero, suc, ◌≡◌, refl, true, false, none, some, List, [], ◌∷◌, map}
use reserach.Ledger.{AuditBlock, calculate_hash, tip_hash, next_id}
use reserach.Ledger.Symbolic.{Code, symbolic, symbolic-CollisionFree, code_beq}
use reserach.Ledger.Append.{
  Settings, Node, Receipt, not_anchored, mined, raised, runtime_error, anchor, anchor_loop,
  attempt_once, new_block, append_block,
}
use reserach.Ledger.Verify.{
  verify_chain, verify_from, check_block, check_database, check_chain, reject, block_hash_mismatch,
}
use reserach.Ledger.History.{Event, append_all, verify_chain-append_all}
use reserach.Ledger.Tamper.{content, tamper_evident}
use reserach.Ledger.Faults.{FirstFault, verify_chain-FirstFault}
use reserach.Ledger.Chain.{IsLinked, verify_chain_iff}

abbrev offline : Settings
offline = record {
  blockchain_enabled = false;
  blockchain_required = false;
  signer_private_key = false;
  blockchain_chain_id = "1337";
}

abbrev strict : Settings
strict = record {
  blockchain_enabled = true;
  blockchain_required = true;
  signer_private_key = true;
  blockchain_chain_id = "1337";
}

abbrev receipt : ℕ → Receipt
receipt status = record {
  status = status;
  transaction_hash = "0xab";
  block_number = 7;
  block_hash = "0xcd";
  mined_at = 99;
}

-- A node whose first attempt raises and whose later ones are mined with the status given.
abbrev flaky : ℕ → Node
flaky status = record {
  w3 = true;
  contract = true;
  contract_address = "0xc0";
  probe = λ k. not_anchored;
  transaction = λ k. elim k [ zero ↦ raised | suc _ ↦ mined (receipt status) ];
}

abbrev login : Event
login = record { env = offline; node = flaky 1; event_type = "LOGIN"; details_json = "{}"; now = 5 }

abbrev upload : Event
upload = record {
  env = strict;
  node = flaky 0;
  event_type = "UPLOAD";
  details_json = "{}";
  now = 9;
}

abbrev two_blocks : List (AuditBlock Code)
two_blocks = append_all symbolic (login ∷ upload ∷ []) []

two_blocks_valid : (verify_chain symbolic none two_blocks).valid ≡ true
two_blocks_valid = (verify_chain-append_all symbolic (login ∷ upload ∷ [])).0

-- The second call is reverted three times and raises, and its row stays.
upload_raises : (append_block symbolic strict (flaky 0) "UPLOAD" "{}" 9 []).0 ≡ runtime_error
unfolding append_block new_block calculate_hash tip_hash next_id anchor anchor_loop attempt_once
upload_raises = refl

abbrev fresh : AuditBlock Code
fresh = new_block symbolic "UPLOAD" "{}" 9 []

verify_chain-append_all_example :
    ((verify_chain symbolic none two_blocks).valid ≡ true)
    × ((verify_chain symbolic none two_blocks).checked_records ≡ 2)
verify_chain-append_all_example = verify_chain-append_all symbolic (login ∷ upload ∷ [])

tamper_evident_example : map content two_blocks ≡ map content two_blocks
tamper_evident_example =
    tamper_evident symbolic symbolic-CollisionFree two_blocks two_blocks two_blocks_valid
      two_blocks_valid refl refl

verify_chain_iff_example :
    ((verify_chain symbolic none two_blocks).valid ≡ true → IsLinked symbolic two_blocks)
    × (IsLinked symbolic two_blocks → (verify_chain symbolic none two_blocks).valid ≡ true)
verify_chain_iff_example = verify_chain_iff symbolic two_blocks

-- The first record rewritten: its stored hash no longer fits.
abbrev forged : List (AuditBlock Code)
forged = record fresh { details_json = "{\"amount\": 1}" } ∷ []

forged_report : (verify_chain symbolic none forged).reason ≡ some block_hash_mismatch
unfolding verify_chain verify_from check_block check_database check_chain reject calculate_hash
    tip_hash next_id code_beq new_block
forged_report = refl

verify_chain-FirstFault_example :
    FirstFault symbolic Code.zeros forged 0 (verify_chain symbolic none forged)
unfolding verify_chain verify_from check_block check_database check_chain reject calculate_hash
    tip_hash next_id code_beq new_block
verify_chain-FirstFault_example = verify_chain-FirstFault symbolic forged refl
