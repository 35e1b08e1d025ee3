-- ===== src/Import.antt =====
-- DB Insert, netdj2/db/main.cpp. What it prints is a list of lines; the database and the file system
-- are arguments.
use netdj.Prelude.{
  Bool, true, false, Option, none, some, List, [], ◌∷◌, ◌++◌, Text, codes, text_eq, if◌then◌else◌,
}
use netdj.Prelude.Int.{ℤ, pos, negsuc}

-- A line on one of the two streams.
pub data Line : Type 0 where
  out err : Text → Line

pub record Settings : Type 0 where
  pub database_name : Text
  pub host_name : Text
  pub user_name : Text
  pub password : Text

-- QSqlDatabase, with the error of open() if it fails, and QFileInfo
pub record Outside : Type 0 where
  pub drivers : Text
  pub has_driver : Text → Bool
  pub connection : Settings → Option Text
  pub is_dir : Text → Bool
  pub is_file : Text → Bool

abbrev pub usage : Line
usage = err (codes "./db_insert [-l] <filename>")

-- add_file(aFilename): TagLib reads the file, and what it reads is not used.
unfoldable pub add_file : Text → List Line × Bool
add_file filename = (out (codes "Inserting file: " ++ (filename ++ codes " ...")) ∷ [], true)

-- The `switch` on the number of arguments: the file and whether it is a list
unfoldable pub parse_args : List Text → Option (Text × Bool)
parse_args (program ∷ filename ∷ []) = some (filename, false)
parse_args (program ∷ option ∷ filename ∷ []) =
    if text_eq option (codes "-l") then some (filename, true) else none
parse_args other = none

abbrev pub settings : Settings
settings = record {
  database_name = codes "netdj";
  host_name = codes "localhost";
  user_name = codes "beaufour";
  password = [];
}

-- behind the opening of the database
unfoldable pub insert_from : Outside → Text → Bool → List Line × ℤ
unfolding add_file
insert_from o filename is_list =
    if o.is_dir filename
    then (out (codes "Will include all files from directory") ∷ [], pos 0)
    else if o.is_file filename
    then (if is_list
        then (out (codes "Will read filenames from list in file") ∷ [], pos 0)
        else (out (codes "Will insert single file") ∷ (add_file filename).0, pos 0))
    else (usage ∷ [], negsuc 3)

abbrev printed : List Line → List Line × ℤ → List Line × ℤ
printed lines (more, code) = (lines ++ more, code)

unfoldable pub opened : Outside → Text → Bool → Option Text → List Line × ℤ
unfolding insert_from
opened o filename is_list none = insert_from o filename is_list
opened o filename is_list (some error) =
    (err (codes "Could not open database: " ++ error) ∷ [], negsuc 2)

unfoldable pub with_args : Outside → Option (Text × Bool) → List Line × ℤ
unfolding opened
with_args o none = (usage ∷ [], negsuc 0)
with_args o (some (filename, is_list)) =
    printed
      (out (codes "DB Drivers: " ++ o.drivers) ∷ out (codes "Creating connection to database") ∷ [])
      (if o.has_driver (codes "QMYSQL3")
        then opened o filename is_list (o.connection settings)
        else (err (codes "Could not create database connection") ∷ [], negsuc 1))

-- main(argc, argv)
unfoldable pub main : Outside → List Text → List Line × ℤ
unfolding with_args parse_args
main o args = with_args o (parse_args args)
