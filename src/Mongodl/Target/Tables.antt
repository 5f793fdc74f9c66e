-- ===== src/Mongodl/Target/Tables.antt =====
-- The tables of mongodl.py that map a host to the name of its downloads.
use drivers_evergreen_tools.Common.{List, [], ◌∷◌}
use drivers_evergreen_tools.Common.Text.{Text, codes}

-- `DISTRO_ID_MAP`
abbrev pub distro_id_map : List (Text × Text)
distro_id_map =
    (codes "elementary", codes "ubuntu")
    ∷ (codes "fedora", codes "rhel")
    ∷ (codes "centos", codes "rhel")
    ∷ (codes "mint", codes "ubuntu")
    ∷ (codes "linuxmint", codes "ubuntu")
    ∷ (codes "opensuse-leap", codes "sles")
    ∷ (codes "opensuse", codes "sles")
    ∷ (codes "pop", codes "ubuntu")
    ∷ (codes "redhat", codes "rhel")
    ∷ (codes "rocky", codes "rhel")
    ∷ []

-- `DISTRO_VERSION_MAP`
abbrev pub distro_version_map : List (Text × List (Text × Text))
distro_version_map =
    (codes "elementary", (codes "6", codes "20.04") ∷ (codes "6.*", codes "20.04") ∷ [])
    ∷ (
      codes "fedora",
      (codes "32", codes "8")
          ∷ (codes "33", codes "8")
          ∷ (codes "34", codes "8")
          ∷ (codes "35", codes "8")
          ∷ (codes "36", codes "8")
          ∷ [],
    )
    ∷ (
      codes "linuxmint",
      (codes "19", codes "18.04")
          ∷ (codes "19.*", codes "18.04")
          ∷ (codes "20", codes "20.04")
          ∷ (codes "20.*", codes "20.04")
          ∷ (codes "21", codes "22.04")
          ∷ (codes "21.*", codes "22.04")
          ∷ [],
    )
    ∷ (codes "pop", (codes "20.04", codes "20.04") ∷ (codes "22.04", codes "22.04") ∷ [])
    ∷ []

-- `DISTRO_ID_TO_TARGET`
abbrev pub distro_id_to_target : List (Text × List (Text × Text))
distro_id_to_target =
    (
      codes "ubuntu",
      (codes "24.*", codes "ubuntu2404")
          ∷ (codes "22.*", codes "ubuntu2204")
          ∷ (codes "20.*", codes "ubuntu2004")
          ∷ (codes "18.*", codes "ubuntu1804")
          ∷ (codes "16.*", codes "ubuntu1604")
          ∷ (codes "14.*", codes "ubuntu1404")
          ∷ [],
    )
    ∷ (
      codes "debian",
      (codes "9", codes "debian92")
          ∷ (codes "10", codes "debian10")
          ∷ (codes "11", codes "debian11")
          ∷ (codes "12", codes "debian12")
          ∷ [],
    )
    ∷ (
      codes "rhel",
      (codes "6", codes "rhel6")
          ∷ (codes "6.*", codes "rhel6")
          ∷ (codes "7", codes "rhel7")
          ∷ (codes "7.*", codes "rhel7")
          ∷ (codes "8", codes "rhel8")
          ∷ (codes "8.*", codes "rhel8")
          ∷ (codes "9", codes "rhel9")
          ∷ (codes "9.*", codes "rhel9")
          ∷ [],
    )
    ∷ (
      codes "sles",
      (codes "10.*", codes "suse10")
          ∷ (codes "11.*", codes "suse11")
          ∷ (codes "12.*", codes "suse12")
          ∷ (codes "13.*", codes "suse13")
          ∷ (codes "15.*", codes "suse15")
          ∷ [],
    )
    ∷ (
      codes "amzn",
      (codes "2023", codes "amazon2023")
          ∷ (codes "2018.*", codes "amzn64")
          ∷ (codes "2", codes "amazon2")
          ∷ [],
    )
    ∷ []

-- `TARGETS_THAT_ARE_NOT_DISTROS`
abbrev pub targets_that_are_not_distros : List Text
targets_that_are_not_distros =
    codes "linux_i686" ∷ codes "linux_x86_64" ∷ codes "osx" ∷ codes "macos" ∷ codes "windows" ∷ []
