-- ===== src/Node/Tests.antt =====
-- The engine's check of the L1 message index at concrete blocks.
use morph_reth.Common.{ℕ, ◌≡◌, refl, true, Option, none, some, ok, [], ◌∷◌, Result, arith}
use morph_reth.Chainspec.Hardfork.{is_jade_active_at_timestamp}
use morph_reth.Primitives.Envelope.{legacy, is_l1_msg}
use morph_reth.Primitives.Block.{MorphHeader}
use morph_reth.Primitives.Samples.{schedule, parent, quiet_block}
use morph_reth.Consensus.L1Messages.Order.{IsOrdered}
use morph_reth.Node.Validator.{validate_next_l1_msg_index}
use morph_reth.Node.Validator.L1Index.{validate_next_l1_msg_index_iff}

abbrev in_tree : ℕ → Option MorphHeader
in_tree h = some parent

abbrev in_provider : ℕ → Result ℕ (Option MorphHeader)
in_provider h = ok none

jade_at_55 : is_jade_active_at_timestamp schedule 55 ≡ true
unfolding is_jade_active_at_timestamp
jade_at_55 = refl

quiet-IsOrdered : IsOrdered (legacy 1 ∷ []) 6 true
unfolding is_l1_msg
quiet-IsOrdered = record {
  first = 0;
  messages = [];
  rest = legacy 1 ∷ [];
  layout = refl;
  rest_is_l2 = (refl, tt);
  sequential = tt;
  index_follows = λ e. absurd (e refl);
  index_exact = λ e e'. absurd (e refl);
}

validate_next_l1_msg_index_iff_example :
    validate_next_l1_msg_index schedule in_tree in_provider quiet_block ≡ ok tt
validate_next_l1_msg_index_iff_example =
    (validate_next_l1_msg_index_iff schedule in_tree in_provider quiet_block parent jade_at_55 refl
        (omega arith) quiet-IsOrdered).1
      (λ e. refl)
