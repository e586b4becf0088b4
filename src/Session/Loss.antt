-- ===== src/Session/Loss.antt =====
-- The loss sample.
use norr.Prelude.{◌+◌, ◌^◌, ◌≤◌, ◌<◌, ◌≡◌, arith, some}
use norr.Session.{Session, LossSample, take_loss_sample}

-- What a sample says of the counters seen since the last one.
pub record Sensible (s : Session) (sample : LossSample) : Type 0 where
  pub enough : 64 ≤ sample.expected
  pub since : sample.expected + s.sample_base ≡ s.replay.highest
  pub raw_small : sample.raw ≤ sample.expected
  pub residual_small : sample.residual ≤ sample.raw
  pub started_again : (take_loss_sample s).1.sample_base ≡ s.replay.highest
  pub cleared : (take_loss_sample s).1.sample_received ≡ 0

-- A loss sample covers at least 64 counters, those since the last sample up to the highest accepted;
-- both of its fractions are at most one, recovery never makes the loss larger, and the next sample
-- starts behind it, where no more packets were recovered than received.
pub take_loss_sample-Sensible :
    (s : Session) (sample : LossSample)
    → s.sample_recovered ≤ s.sample_received
    → s.sample_received < 2 ^ 64
    → (take_loss_sample s).0 ≡ some sample
    → Sensible s sample
unfolding take_loss_sample
take_loss_sample-Sensible s sample r w e = ground arith
