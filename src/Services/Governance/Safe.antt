-- ===== src/Services/Governance/Safe.antt =====
-- soulon-wallet/src/services/governance.ts: what a vote may send.
use soulon_wallet.Prelude.{ℕ, ◌<◌, Text, ◌≡◌, refl}
use soulon_wallet.Core.Types.{NetworkConfig, VoteInput, whole}
use soulon_wallet.Core.Effects.{msg_vote, TxRequest, Node}
use soulon_wallet.Services.Checks.Accepted.{
  IsOwnAddress, validate_voter_address-IsOwnAddress, validate_proposal_id-positive,
}
use soulon_wallet.Services.Sending.{IsCareful, IsCareful-check, IsCareful-broadcast}
use soulon_wallet.Services.Staking.{request_of}
use soulon_wallet.Services.Governance.{vote_option_map, vote_proposal}

-- A vote of the voter's own, on a positive proposal, with the option that was asked for.
pub record IsVote (network : NetworkConfig) (input : VoteInput) (request : TxRequest) : Type 0 where
  pub voter : Text
  pub proposal : ℕ
  pub own : IsOwnAddress network input.voter_address voter
  pub same : input.proposal_id ≡ whole proposal
  pub positive : 0 < proposal
  pub built :
      request
      ≡ request_of voter "/cosmos.gov.v1beta1.MsgVote"
          (msg_vote proposal voter (vote_option_map input.option))
          input.memo

-- `voteProposal` throws before it has done anything to the outside, or it sends one to three
-- copies of one vote with a checked voter and a positive proposal id, and nothing else.
pub vote_proposal-IsCareful :
    (lower : Text → Text) (client : Node) (network : NetworkConfig) (input : VoteInput)
    → IsCareful (IsVote network input) (vote_proposal lower client network input)
unfolding vote_proposal
vote_proposal-IsCareful lower client network input = IsCareful-check _ _ _ λ v hv.
    IsCareful-check _ _ _ λ n hn.
      let (same, positive) = validate_proposal_id-positive input.proposal_id n hn in
      IsCareful-broadcast _ lower client _ (record {
        voter = v;
        proposal = n;
        own = validate_voter_address-IsOwnAddress network input.voter_address v hv;
        same = same;
        positive = positive;
        built = refl;
      })
