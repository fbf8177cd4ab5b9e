-- ===== src/Open/Ledger.antt =====
-- libusb with a ledger beside it: each call, as libusb documents it, enters what it acquires, strikes
-- out what it gives back, and notes a misuse when what it needs is not there.
use gs_usb_user.Base.{Bool, true, false, Option, none, some, ◌&&◌, ◌||◌, not}
use gs_usb_user.Usb.{Usb}
use gs_usb_user.Open.Device.{Libusb, is_success}

-- what is acquired and not yet given back, and whether a call came without what it needs
pub record Ledger : Type 0 where
  pub context : Bool
  pub device_list : Bool
  pub handle : Bool
  pub interface : Bool
  pub config : Bool
  pub misused : Bool

-- a context and no more
abbrev pub nothing_held : Ledger
nothing_held = record {
  context = true;
  device_list = false;
  handle = false;
  interface = false;
  config = false;
  misused = false;
}

-- what an open device keeps: the handle and the claimed interface
abbrev pub device_held : Ledger
device_held = record nothing_held { handle = true; interface = true }

-- A call needs what `there` says.
abbrev pub needing : Bool → Ledger → Ledger
needing there l = record l { misused = l.misused || not there }

-- a transfer, or the reader: it needs the interface claimed on an open handle
abbrev pub transferring : Ledger → Ledger
transferring l = needing (l.context && l.handle && l.interface) l

abbrev pub is_given {ℓ} : {A : Type ℓ} → Option A → Bool
is_given none = false
is_given (some a) = true

abbrev pub took_list : Bool → Ledger → Ledger
took_list given l = record (needing (l.context && not l.device_list) l) {
  device_list = given || l.device_list;
}

abbrev pub gave_list : Ledger → Ledger
gave_list l = record (needing l.device_list l) { device_list = false }

-- The device that is opened comes from the list.
abbrev pub took_handle : Bool → Ledger → Ledger
took_handle given l = record (needing (l.device_list && not l.handle) l) {
  handle = given || l.handle;
}

abbrev pub took_interface : Bool → Ledger → Ledger
took_interface given l = record (needing (l.handle && not l.interface) l) {
  interface = given || l.interface;
}

abbrev pub took_config : Bool → Ledger → Ledger
took_config given l = record (needing (l.handle && not l.config) l) { config = given || l.config }

abbrev pub gave_config : Ledger → Ledger
gave_config l = record (needing l.config l) { config = false }

abbrev pub gave_interface : Ledger → Ledger
gave_interface l = record (needing (l.handle && l.interface) l) { interface = false }

-- A handle is closed with no interface claimed on it.
abbrev pub gave_handle : Ledger → Ledger
gave_handle l = record (needing (l.context && l.handle && not l.interface) l) { handle = false }

abbrev pub took_context : Bool → Ledger → Ledger
took_context given l = record (needing (not l.context) l) { context = given || l.context }

abbrev pub gave_context : Ledger → Ledger
gave_context l = record (needing (l.context && not l.handle) l) { context = false }

module _ {W : Type 0} where
  abbrev pub tracked_usb : Usb W → Usb (W × Ledger)
  tracked_usb usb = record {
    control_out =
        λ s bytes w. let (rc, w') = usb.control_out s bytes w.0 in (rc, (w', transferring w.1));
    control_in =
        λ s n w. let (rc, raw, w') = usb.control_in s n w.0 in (rc, raw, (w', transferring w.1));
    bulk_out = λ ep bytes timeout w.
        let (rc, n, w') = usb.bulk_out ep bytes timeout w.0 in (rc, n, (w', transferring w.1));
    create_reader = λ w. let (ok, w') = usb.create_reader w.0 in (ok, (w', transferring w.1));
    join_reader = λ w. (usb.join_reader w.0, transferring w.1);
  }

  abbrev pub tracked : Libusb W → Libusb (W × Ledger)
  tracked lib = record {
    init_context =
        λ w. let (rc, w') = lib.init_context w.0 in (rc, (w', took_context (is_success rc) w.1));
    exit_context = λ w. (lib.exit_context w.0, gave_context w.1);
    get_device_list = λ w.
        let (list, w') = lib.get_device_list w.0 in (list, (w', took_list (is_given list) w.1));
    free_device_list = λ w. (lib.free_device_list w.0, gave_list w.1);
    open_handle =
        λ d w. let (rc, w') = lib.open_handle d w.0 in (rc, (w', took_handle (is_success rc) w.1));
    set_auto_detach = λ w. (lib.set_auto_detach w.0, needing w.1.handle w.1);
    claim_interface = λ w.
        let (rc, w') = lib.claim_interface w.0 in (rc, (w', took_interface (is_success rc) w.1));
    get_active_config = λ w.
        let (config, w') = lib.get_active_config w.0 in
        (config, (w', took_config (is_given config) w.1));
    free_config = λ w. (lib.free_config w.0, gave_config w.1);
    release_interface = λ w. (lib.release_interface w.0, gave_interface w.1);
    close_handle = λ w. (lib.close_handle w.0, gave_handle w.1);
  }
