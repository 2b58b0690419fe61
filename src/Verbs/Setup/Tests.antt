-- ===== src/Verbs/Setup/Tests.antt =====
-- Concrete runs of the constructor, and its theorem at a concrete input.
use talpf.Prelude.{◌≡◌, refl, true, some, none, [], ◌∷◌}
use talpf.Verbs.Setup.{
  device_not_found, too_few_completions, illegal_mtu, built, fails, SetupAnswers, construct,
  get_mtu, query, query_port, query_device, open_device, find_device, members, links, allocate,
}

abbrev two_devices : SetupAnswers
two_devices = record {
  device_names = some ("mlx5_0" ∷ "mlx5_1" ∷ []);
  wanted = "mlx5_1";
  ib_port = 1;
  gid_idx = none;
  mtu_size = 2048;
  ram = 1000;
  opens = true;
  device = some (record { max_mr_size = 4096; max_mr = 10; max_qp_wr = 64; max_cqe = 16 });
  port = some (record { max_msg_sz = 300; lid = 7 });
  makes_pd = true;
  makes_cq_local = true;
  makes_cq_remote = true;
  makes_counters = true;
}

-- The second device is taken, and 3 messages fill the memory.
takes_second :
    construct 1 2 two_devices
    ≡ built 1
        (members 1 2 1000
          (record { max_mr_size = 4096; max_mr = 10; max_qp_wr = 64; max_cqe = 16 })
          (record { max_msg_sz = 300; lid = 7 }))
        (links 1 2 4 two_devices (record { max_msg_sz = 300; lid = 7 }))
unfolding construct get_mtu query query_port query_device open_device find_device allocate
takes_second = refl

not_there : construct 1 2 (record two_devices { wanted = "ib0" }) ≡ fails device_not_found
unfolding construct get_mtu query open_device find_device
not_there = refl

too_many_processes : construct 1 17 two_devices ≡ fails too_few_completions
unfolding construct get_mtu query query_device open_device find_device
too_many_processes = refl

no_such_mtu : construct 1 2 (record two_devices { mtu_size = 1500 }) ≡ fails illegal_mtu
unfolding construct get_mtu
no_such_mtu = refl
