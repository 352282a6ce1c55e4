-- ===== src/Tests/Globs.antt =====
-- Runs of the glob parser of pkg/filetree.
use stereoscope.Glob.{parse_glob}
use stereoscope.Glob.Clean.{remove_redundant_count_glob, star, clean_glob}
use stereoscope.Glob.Whole.{AllWhole, parse_glob-AllWhole}
use stereoscope.Glob.Streaks.{within, remove_redundant_count_glob-within}
use stereoscope.Prelude.{true, ◌≡◌, codes, Str}

abbrev starry : Str
starry = codes "/a****/**/b*"

remove_redundant_count_glob-within_example :
    within star 2 0 (remove_redundant_count_glob starry star 2) ≡ true
remove_redundant_count_glob-within_example = remove_redundant_count_glob-within starry star 2

parse_glob-AllWhole_example :
    AllWhole (clean_glob (codes "/lib/**/**/***")) (parse_glob (codes "/lib/**/**/***"))
parse_glob-AllWhole_example = parse_glob-AllWhole (codes "/lib/**/**/***")
