-- ===== src/Bar/Sysinfo/Laws.antt =====
-- swayrbar/src/module/sysinfo.rs: what a refresh reads.
use swayr.Base.{◌≡◌, refl, suc, ret, String, Bool}
use swayr.Bar.Outside.{Crates, World}
use swayr.Bar.Sysinfo.{State, refresh_state, subst_placeholders}

module _ {c : Crates} where
  -- The readings of a refresh: the system refreshed once for the processor and once for the memory, and
  -- the load averages of three requests.
  abbrev pub readings : World c → c.System → State c → State c
  readings w sys state =
      let cpu = (w.outside w.now).refresh_cpu sys in
      let both = (w.outside (suc w.now)).refresh_memory cpu in
      record state {
        cpu_usage = c.cpu_usage cpu;
        mem_usage =
            c.f64_div (c.f64_mul (c.f64_of (c.used_memory both)) (c.f64_of 100))
              (c.f64_of (c.total_memory both));
        load_avg_1 = (w.outside (suc (suc w.now))).load_average.one;
        load_avg_5 = (w.outside (suc (suc (suc w.now)))).load_average.five;
        load_avg_15 = (w.outside (suc (suc (suc (suc w.now))))).load_average.fifteen;
      }

  -- The state after a refresh and its text, over a system that was refreshed in order and once each.
  refresh_state-readings :
      (w : World c) (sys : c.System) (state : State c) (fmt : String) (esc : Bool)
      → refresh_state sys state fmt esc w ≡ (
        ret (
          (w.outside (suc w.now)).refresh_memory ((w.outside w.now).refresh_cpu sys),
          record (readings w sys state) {
            cached_text = subst_placeholders c fmt esc (readings w sys state);
          },
        ),
        record w { now = suc (suc (suc (suc (suc w.now)))) },
      )
  unfolding refresh_state
  refresh_state-readings w sys state fmt esc = refl
