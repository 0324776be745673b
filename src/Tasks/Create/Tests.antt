-- ===== src/Tasks/Create/Tests.antt =====
-- internal/service/tasks.go: the theorems on new tasks at a ping of an address, with and without a port.
use dnsgolang.Base.{
  ◌≡◌, ◌↔◌, refl, false, none, some, [], ◌∷◌, pos, if◌then◌else◌, ◌==◌, text_eq, text_beq,
}
use dnsgolang.Base.Text.{Text, txt, trim_space, trim, trim_left, trim_right, has_prefix}
use dnsgolang.Scheduling.Types.{Region, ok}
use dnsgolang.Tasks.Create.{
  CreateTaskInput, CreateEnv, NewTask, panics, create_task, check_schedule, host_of, check_target,
  then_check, choose_regions, unknown_codes, new_task, set_unreached, schedule_of, is_domain,
}
use dnsgolang.Tasks.Create.Accepted.{
  IsAccepted, IsUnread, create_task-IsAccepted, create_task-panics,
}

abbrev region : Region
region = record {
  id = 1;
  code = txt "g";
  name = txt "g";
  display_order = pos 1;
  map_lng = pos 0;
  map_lat = pos 0;
}

abbrev address : Text
address = txt "1.2.3.4"

abbrev env : CreateEnv
env = record {
  active_regions = ok (region ∷ []);
  default_codes = ok [];
  now = 100;
  next_run = λ cron now. none;
  parse_url = λ target. if target == address then some ([], []) else none;
  is_ipv4 = λ target. target == address;
  matches_domain = λ target. false;
  clean_dns_options = λ target options. none;
}

abbrev ping : Text → CreateTaskInput
ping target = record {
  mode = txt "once";
  protocol = txt "ping";
  target = target;
  target_display = [];
  regions = [];
  options = [];
  schedule = [];
}

abbrev task : NewTask
task = record {
  mode = txt "once";
  protocol = txt "ping";
  target = address;
  target_display = address;
  regions = txt "g" ∷ [];
  options = [];
  schedule_cron = [];
  source = txt "public";
  created_by = none;
}

create_task-IsAccepted_example : IsAccepted env (ping (txt " 1.2.3.4")) false 0 task
unfolding create_task check_schedule host_of check_target then_check choose_regions unknown_codes
    new_task set_unreached schedule_of is_domain trim_space trim trim_left trim_right text_beq
    has_prefix
create_task-IsAccepted_example =
    create_task-IsAccepted env (ping (txt " 1.2.3.4")) false 0 task refl

create_task-panics_example :
    let input = ping (txt "1.2.3.4:80") in
    (create_task env input false 0 ≡ panics) ↔ IsUnread env input false
create_task-panics_example = create_task-panics env (ping (txt "1.2.3.4:80")) false 0

create_task-1_2_3_4_80 : create_task env (ping (txt "1.2.3.4:80")) false 0 ≡ panics
unfolding create_task check_schedule host_of check_target then_check choose_regions unknown_codes
    new_task trim_space trim trim_left trim_right text_beq
create_task-1_2_3_4_80 = refl
