-- ===== src/Jobs/World/Play.antt =====
-- Whatever calls a handler makes on its sink (daemon/pipelines/handler.go), it ends no job by them.
use disc_echo_dd.Common.{ℕ, List, [], ◌∷◌, Option, Text}
use disc_echo_dd.Jobs.Sink.{Sink}
use disc_echo_dd.Jobs.Sink.Quiet.{
  Quiet, Quiet-refl, Quiet-trans, on_step_start-Quiet, on_progress-Quiet, on_sub_step-Quiet,
  on_log-Quiet, on_step_done-Quiet, on_step_failed-Quiet,
}
use disc_echo_dd.Jobs.Sink.{
  on_step_start, on_progress, on_sub_step, on_log, on_step_done, on_step_failed,
}
use disc_echo_dd.Jobs.World.{
  SinkCall, step_start, progress, sub_step, log, step_done, step_failed, play,
}

pub play-Quiet :
    (stat : Text → Option ℕ) (calls : List SinkCall) (s : Sink) → Quiet s (play stat calls s)
unfolding play
play-Quiet stat [] s = Quiet-refl s
play-Quiet stat (step_start now step ∷ calls) s =
    Quiet-trans s (on_step_start now step s) _ (on_step_start-Quiet now step s)
      (play-Quiet stat calls (on_step_start now step s))
play-Quiet stat (progress now p ∷ calls) s =
    Quiet-trans s (on_progress now p s) _ (on_progress-Quiet now p s)
      (play-Quiet stat calls (on_progress now p s))
play-Quiet stat (sub_step name ∷ calls) s =
    Quiet-trans s (on_sub_step name s) _ (on_sub_step-Quiet name s)
      (play-Quiet stat calls (on_sub_step name s))
play-Quiet stat (log now level message ∷ calls) s =
    Quiet-trans s (on_log now level message s) _ (on_log-Quiet now level message s)
      (play-Quiet stat calls (on_log now level message s))
play-Quiet stat (step_done now step notes ∷ calls) s =
    Quiet-trans s (on_step_done now stat step notes s) _ (on_step_done-Quiet now stat step notes s)
      (play-Quiet stat calls (on_step_done now stat step notes s))
play-Quiet stat (step_failed now step e ∷ calls) s =
    Quiet-trans s (on_step_failed now step e s) _ (on_step_failed-Quiet now step e s)
      (play-Quiet stat calls (on_step_failed now step e s))
