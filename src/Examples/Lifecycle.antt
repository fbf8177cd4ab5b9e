-- ===== src/Examples/Lifecycle.antt =====
-- Runs of starting, stopping and closing.
use gs_usb_user.Close.{gsusb_close}
use gs_usb_user.Close.Resets.{handed_back, started_indices, send_resets, close_cases}
use gs_usb_user.Base.{◌⊎◌, ◌≢◌, ℕ, ◌≡◌, refl, true, false, some, List, [], ◌∷◌, arith}
use gs_usb_user.Device.{Dev}
use gs_usb_user.Status.{Status}
use gs_usb_user.Lifecycle.{hw_ts, hw_flags, release, joined, start, stop}
use gs_usb_user.Lifecycle.Started.{IsQuiescent, count_started}
use gs_usb_user.Lifecycle.Start.{Started, start-Started}
use gs_usb_user.Lifecycle.Stop.{Stopped, stop-Stopped}
use gs_usb_user.Lifecycle.Calls.{Call, start_call, stop_call, perform_all, perform_all-IsQuiescent}
use gs_usb_user.Lifecycle.Race.{release-start-joined}
use gs_usb_user.Examples.Tools.{libusb}
use gs_usb_user.Rx.{handle_rx_packet}
use gs_usb_user.Lifecycle.Threads.{IsCounted, Step, Reach, Reach-IsCounted}
use gs_usb_user.Examples.{
  bus, live_bus, at_rest, in_use, three_slots-IsQueue, device_of-IsValid, at_rest-IsValid, counting,
}

at_rest-IsQuiescent : IsQuiescent at_rest
unfolding count_started
at_rest-IsQuiescent = record {
  valid = at_rest-IsValid;
  active = refl;
  idle = λ z. refl;
  reading = λ nz. absurd (nz refl);
  unstopped = λ nz. refl;
}

in_use-IsQuiescent : IsQuiescent in_use
unfolding count_started
in_use-IsQuiescent =
    let v = device_of-IsValid live_bus refl three_slots-IsQueue in
    record {
      valid = record {
        counted = v.counted;
        bounded = v.bounded;
        indexed = v.indexed;
        queued = v.queued;
      };
      active = refl;
      idle = λ z. absurd (omega arith);
      reading = λ nz. refl;
      unstopped = λ nz. refl;
    }

abbrev calls : List Call
calls = start_call 0 0 ∷ start_call 0 0 ∷ stop_call 0 ∷ stop_call 4 ∷ start_call 0 16 ∷ []

perform_all-IsQuiescent_example :
    (d : Dev) × (w' : ℕ) × (perform_all counting calls at_rest 0 ≡ some (d, w')) × IsQuiescent d
perform_all-IsQuiescent_example =
    perform_all-IsQuiescent counting calls at_rest 0 at_rest-IsQuiescent

start-Started_example :
    (r : Status × Dev) × (w' : ℕ) × (start counting at_rest 0 0 0 ≡ some (r, w'))
    × Started at_rest 0 bus r
start-Started_example = start-Started counting at_rest 0 bus 0 0 at_rest-IsQuiescent refl

stop-Stopped_example :
    (d : Dev) × (w' : ℕ) × (stop counting in_use 0 0 ≡ some (d, w')) × Stopped in_use 0 live_bus d
stop-Stopped_example = stop-Stopped counting in_use 0 live_bus 0 in_use-IsQuiescent refl

-- the device after a `start` between the sections of a `stop`
abbrev restarted : Dev
restarted = record in_use { stop_flag = true }

start-release : start counting (release in_use 0 live_bus) 0 0 0 ≡ some ((Status.ok, restarted), 1)
unfolding start gs_usb_user.Lifecycle.launch gs_usb_user.Lifecycle.mode_bytes
    gs_usb_user.Lifecycle.hw_flags gs_usb_user.Wire.put_le32 gs_usb_user.Usb.ctrl_out
start-release = refl

release-start-joined_example :
    (restarted.stop_flag ≡ true)
    × ((joined restarted).active_channels ≡ 1)
    × ((joined restarted).reader_running ≡ false)
release-start-joined_example =
    release-start-joined counting in_use 0 live_bus 0 0 0 1 restarted in_use-IsQuiescent refl refl
      start-release

close_cases_example :
    ((in_use.active_channels ≡ 0)
      × (gsusb_close counting libusb in_use 0 ≡ some (handed_back libusb 0)))
    ⊎ ((in_use.active_channels ≢ 0)
        × (gsusb_close counting libusb in_use 0
            ≡ some (handed_back libusb (send_resets counting (started_indices in_use.channels) 1))))
close_cases_example = close_cases counting libusb in_use 0 in_use-IsQuiescent

-- The only channel is released, a packet too short to be one comes in, and the reader is joined.
Reach-IsCounted_example : IsCounted (joined (release in_use 0 live_bus))
unfolding handle_rx_packet
Reach-IsCounted_example =
    Reach-IsCounted {s = record { dev = in_use; joining = 0 }}
      (record { valid = in_use-IsQuiescent.valid; active = in_use-IsQuiescent.active })
      (Reach.next
        (Reach.next (Reach.next Reach.here (Step.releases 0 live_bus refl refl))
          (Step.receives [] (release in_use 0 live_bus) refl))
        (Step.joins 0 refl))
