-- ===== src/Ai/Assembly/Tests.antt =====
-- The program of a checkpoint, in protected mode without paging.
use hnmos.Prelude.{none, some, replicate}
use hnmos.Ai.Task.{AiTask, sync, pending, input_max, output_max}
use hnmos.Sync.Tests.{machine, counted, counted-IsFree}
use hnmos.Ai.Assembly.{Registers, build}
use hnmos.Ai.Assembly.Programs.{Built, build_lem}

abbrev protected : Registers
protected = record { cr0 = 17; eflags = 514 }

abbrev checkpoint_task : AiTask
checkpoint_task = record {
  task_id = 3;
  task_type = sync;
  input = replicate input_max 0;
  language_profile = none;
  context_flags = 96;
  status = pending;
  output = replicate output_max 0;
}

build_example :
    Built protected machine checkpoint_task counted
      (build protected machine (some checkpoint_task) counted)
build_example = build_lem protected machine checkpoint_task counted counted-IsFree
